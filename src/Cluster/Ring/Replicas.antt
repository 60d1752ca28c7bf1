-- ===== src/Cluster/Ring/Replicas.antt =====
-- The replica walk returns the first distinct nodes clockwise, the primary before all others.
use mathlib.Core.Path.{subst}
use infralens.Prelude.{
  ℕ, zero, suc, ◌-◌, ◌≤◌, ◌<◌, ◌≡◌, ◌≢◌, refl, sym, ◌∙◌, ap, true, false, List, [], ◌∷◌, ◌++◌,
  append_assoc, append-nil, Bytes, Result, ok, length, length-append, length-take, take, arith, leb,
  Bool-cases, inl, inr, max,
}
use infralens.Cluster.Errors.{ClusterError}
use infralens.Cluster.Ring.{
  ConsistentHashRing, clockwise, first_node, primary_for, member, collect, replica_nodes, non_empty,
  range_from,
}

abbrev pub names : List (ℕ × Bytes) → List Bytes
names [] = []
names ((p, n) ∷ m) = n ∷ names m

-- The names that are not in `seen`, each once, in order of first appearance.
unfoldable pub firsts : List Bytes → List Bytes → List Bytes
firsts seen [] = []
firsts seen (n ∷ ns) = elim (member n seen) [
  | true ↦ firsts seen ns
  | false ↦ n ∷ firsts (seen ++ n ∷ []) ns
]

-- No name twice, and none of `seen`.
abbrev pub Distinct : List Bytes → List Bytes → Type 0
Distinct seen [] = Unit
Distinct seen (n ∷ ns) = (member n seen ≡ false) × Distinct (seen ++ n ∷ []) ns

pub firsts-Distinct : (seen ns : List Bytes) → Distinct seen (firsts seen ns)
unfolding firsts
firsts-Distinct seen [] = tt
firsts-Distinct seen (n ∷ ns) = elim (Bool-cases (member n seen)) [
  | inl old ↦ rw (old, firsts) (firsts-Distinct seen ns)
  | inr new ↦ rw (new, firsts) (new, firsts-Distinct (seen ++ n ∷ []) ns)
]

take-Distinct : (k : ℕ) (seen ns : List Bytes) → Distinct seen ns → Distinct seen (take k ns)
take-Distinct zero seen ns h = tt
take-Distinct (suc k) seen [] h = tt
take-Distinct (suc k) seen (n ∷ ns) h = (h.0, take-Distinct k (seen ++ n ∷ []) ns h.1)

take-nil : {A : Type 0} (k : ℕ) → take {A = A} k [] ≡ []
take-nil zero = refl
take-nil (suc k) = refl

member-length : (n : Bytes) (ns : List Bytes) → member n ns ≡ true → 0 < length ns
member-length n [] h = ground arith
member-length n (m ∷ ns) h = omega arith

-- The loop, from a result that is still too short.
collect_lem :
    (es : List (ℕ × Bytes)) (count : ℕ) (result : List Bytes)
    → length result < max count 1
    → collect es count result result
      ≡ result ++ take (max count 1 - length result) (firsts result (names es))
unfolding collect firsts
collect_lem [] count result short =
    rw (take-nil {A = Bytes} (max count 1 - length result), append-nil result)
collect_lem ((p, n) ∷ es) count result short = elim (Bool-cases (member n result)) [
  | inl old ↦
      let open_end : leb count (length result) ≡ false =
        ground (arith, member-length n result old) in
      rw (old, open_end, firsts) (collect_lem es count result short)
  | inr new ↦
      let grown = length-append result (n ∷ []) in
      let left : max count 1 - length result ≡ suc (max count 1 - length (result ++ n ∷ [])) =
        omega (arith, grown) in
      elim (Bool-cases (leb count (length (result ++ n ∷ [])))) [
        | inl full ↦
            let none_left : max count 1 - length (result ++ n ∷ []) ≡ 0 = ground (arith, grown) in
            rw (new, full, left, none_left, firsts) refl
        | inr more ↦
            rw (new, more, left, firsts)
              (collect_lem es count (result ++ n ∷ []) (ground (arith, grown))
                ∙ append_assoc result (n ∷ []) _)
      ]
]

collect-firsts :
    (es : List (ℕ × Bytes)) (count : ℕ)
    → collect es count [] [] ≡ take (max count 1) (firsts [] (names es))
collect-firsts es count =
    collect_lem es count [] (omega arith) ∙ ap (λ k. take k (firsts [] (names es))) (omega arith)

non_empty_ok :
    (ring : List (ℕ × Bytes))
    → ring ≢ []
    → (x : Result (List Bytes) ClusterError) → non_empty ring x ≡ x
non_empty_ok [] h x = absurd (h refl)
non_empty_ok (e ∷ ring) h x = refl

non_empty_inv :
    (ring : List (ℕ × Bytes)) (x : Result (List Bytes) ClusterError) (ns : List Bytes)
    → non_empty ring x ≡ ok ns
    → x ≡ ok ns
non_empty_inv [] x ns h = cc
non_empty_inv (e ∷ ring) x ns h = h

-- On a ring with nodes, `replica_nodes` returns the first distinct nodes clockwise, as many as
-- asked for or as there are; asked for none, it still returns one.
pub replica_nodes-firsts :
    (shard count : ℕ) (r : ConsistentHashRing)
    → r.ring ≢ []
    → replica_nodes shard count r ≡ ok (take (max count 1) (firsts [] (names (clockwise shard r))))
unfolding replica_nodes
replica_nodes-firsts shard count r some_node =
    non_empty_ok r.ring some_node (ok (collect (clockwise shard r) count [] []))
    ∙ ap ok (collect-firsts (clockwise shard r) count)

ok_injective : (x y : List Bytes) → ◌≡◌ {A = Result (List Bytes) ClusterError} (ok x) (ok y) → x ≡ y
ok_injective x y h = cc

-- The replicas are distinct, and at most as many as asked for (one, if none was).
pub replica_nodes-Distinct :
    (shard count : ℕ) (r : ConsistentHashRing) (ns : List Bytes)
    → replica_nodes shard count r ≡ ok ns
    → Distinct [] ns × (length ns ≤ max count 1)
unfolding replica_nodes
replica_nodes-Distinct shard count r ns h =
    let found = firsts [] (names (clockwise shard r)) in
    let eq : take (max count 1) found ≡ ns =
      sym (collect-firsts (clockwise shard r) count)
      ∙ ok_injective _ ns (non_empty_inv r.ring _ ns h) in
    (
      subst (Distinct []) eq (take-Distinct (max count 1) [] found (firsts-Distinct [] _)),
      omega (arith, ap length eq, length-take (max count 1) found),
    )

pub first_node_inv :
    (es : List (ℕ × Bytes)) (p : Bytes)
    → first_node es ≡ ok p
    → (q : ℕ) × (rest : List (ℕ × Bytes)) × (es ≡ (q, p) ∷ rest)
first_node_inv [] p h = cc
first_node_inv ((q, n) ∷ rest) p h = (q, rest, cc)

first_node-some : (e : ℕ × Bytes) (es : List (ℕ × Bytes)) → first_node (e ∷ es) ≡ ok e.1
first_node-some (q, n) es = refl

some_node_of_primary :
    (shard : ℕ) (r : ConsistentHashRing) (p : Bytes) → primary_for shard r ≡ ok p → r.ring ≢ []
unfolding primary_for clockwise range_from
some_node_of_primary shard r p h e = cc (rw e at h)

-- The primary of a key is the first of its replicas, however many are asked for.
pub replica_nodes-primary_for :
    (shard count : ℕ) (r : ConsistentHashRing) (p : Bytes)
    → primary_for shard r ≡ ok p
    → (ns : List Bytes) × (replica_nodes shard count r ≡ ok (p ∷ ns))
unfolding primary_for firsts
replica_nodes-primary_for shard count r p h =
    let (q, rest, eq) = first_node_inv (clockwise shard r) p h in
    let size : max count 1 ≡ suc (max count 1 - 1) = omega arith in
    (
      take (max count 1 - 1) (firsts (p ∷ []) (names rest)),
      replica_nodes-firsts shard count r (some_node_of_primary shard r p h)
          ∙ ap (λ es. ok (take (max count 1) (firsts [] (names es)))) eq
          ∙ ap (λ k. ok (take k (p ∷ firsts (p ∷ []) (names rest)))) size,
    )
