-- ===== src/Dht/Routing/Bucket/Laws.antt =====
-- internal/dht/routing/bucket.go: the outcomes of the operations, and what a bucket keeps.
use jelly_torrent.Base.{
  suc, ◌≤◌, ◌<◌, ◌≡◌, ◌≢◌, ◌⊎◌, inl, inr, refl, sym, ap, ◌∙◌, Bool, true, false, Option, none, some,
  List, [], ◌∷◌, ◌++◌, All, All-append, arith, length, length-append, bytes_eq, bytes_eq_refl,
  bytes_eq_sound, ◌==◌, ==_iff, if◌then◌else◌, Bool-cases,
}
use mathlib.Core.Path.{subst}
use jelly_torrent.Dht.NodeId.{NodeId}
use jelly_torrent.Dht.Routing.{Node}
use jelly_torrent.Dht.Routing.Bucket.{
  Bucket, capacity, remove_first, has_id, is_loose, oldest, reject, evict, insert, remove,
}

-- `Removed p n b left`: `n` is the first node of `b` that has the property, and `left` the others.
pub data Removed (p : Node → Bool) (n : Node) : List Node → List Node → Type 0 where
  here : {ns : List Node} → p n ≡ true → Removed p n (n ∷ ns) ns
  there :
      {m : Node} {ns left : List Node}
      → p m ≡ false
      → Removed p n ns left
      → Removed p n (m ∷ ns) (m ∷ left)

abbrev pub Lacks : (Node → Bool) → List Node → Type 0
Lacks p b = All (λ n. p n ≡ false) b

abbrev Found : (Node → Bool) → List Node → Type 0
Found p b = (left : List Node) × (n : Node) × (remove_first p b ≡ some left) × Removed p n b left

pub remove_first-cases :
    (p : Node → Bool) (b : List Node) → ((remove_first p b ≡ none) × Lacks p b) ⊎ Found p b
unfolding remove_first
remove_first-cases p [] = inl (refl, tt)
remove_first-cases p (n ∷ b) = elim (Bool-cases (p n)) [
  | inl e ↦ inr (b, n, rw e refl, here e)
  | inr e ↦ elim (remove_first-cases p b) [
    | inl (gone, lacks) ↦ inl (rw (e, gone) refl, (e, lacks))
    | inr (left, m, q, r) ↦ inr (n ∷ left, m, rw (e, q) refl, there e r)
  ]
]

-- Each outcome of `Insert`, with its condition.
pub data Inserted (node : Node) (b : Bucket) : (Option Node × Bool) × Bucket → Type 0 where
  refreshes :
      (n : Node) (left : List Node)
      → Removed (has_id node.id) n b left
      → Inserted node b ((none, true), left ++ (node ∷ []))
  appends :
      Lacks (has_id node.id) b
      → length b ≢ capacity
      → Inserted node b ((none, true), b ++ (node ∷ []))
  evicts :
      (n : Node) (left : List Node)
      → Lacks (has_id node.id) b
      → length b ≡ capacity
      → node.compliant ≡ true
      → Removed is_loose n b left
      → Inserted node b ((none, true), left ++ (node ∷ []))
  rejects :
      Lacks (has_id node.id) b
      → length b ≡ capacity
      → (node.compliant ≡ false) ⊎ Lacks is_loose b
      → Inserted node b ((oldest b, false), b)

pub if_true : {A : Type 0} {c : Bool} (x y : A) → c ≡ true → (if c then x else y) ≡ x
if_true x y e = rw e refl

answer :
    {node : Node} {b : Bucket} {r r' : (Option Node × Bool) × Bucket}
    → Inserted node b r
    → r' ≡ r
    → Inserted node b r'
answer {node} {b} i q = subst (Inserted node b) (sym q) i

evict-Inserted :
    (node : Node) (b : Bucket)
    → Lacks (has_id node.id) b
    → length b ≡ capacity
    → Inserted node b (evict node b)
unfolding evict reject
evict-Inserted node b lacks full = elim (Bool-cases node.compliant) [
  | inr e ↦ answer (rejects lacks full (inl e)) (rw (e, evict) refl)
  | inl e ↦ elim (remove_first-cases is_loose b) [
    | inl (gone, tight) ↦ answer (rejects lacks full (inr tight)) (rw (e, evict, gone) refl)
    | inr (left, n, q, r) ↦ answer (evicts n left lacks full e r) (if_true _ _ e ∙ rw q refl)
  ]
]

-- `Insert` moves a known node to the tail in its new form; it adds an unknown one to a bucket with room; in a full bucket a compliant one takes the place of the oldest node that is not, and in every other case the bucket stays and its oldest node is the answer.
pub insert-Inserted : (node : Node) (b : Bucket) → Inserted node b (insert node b)
unfolding insert
insert-Inserted node b = elim (remove_first-cases (has_id node.id) b) [
  | inr (left, n, q, r) ↦ rw (q, insert) (refreshes n left r)
  | inl (gone, lacks) ↦ elim (Bool-cases (length b == capacity)) [
    | inl e ↦ rw (gone, insert, e) (evict-Inserted node b lacks ((==_iff _ _).0 e))
    | inr e ↦ rw (gone, insert, e) (appends lacks (ground arith))
  ]
]

-- No two nodes have the same identifier.
abbrev pub Unique : List Node → Type 0
Unique [] = Unit
Unique (n ∷ ns) = All (λ m. m.id ≢ n.id) ns × Unique ns

pub record IsValid (b : Bucket) : Type 0 where
  pub bounded : length b ≤ capacity
  pub unique : Unique b

pub Removed-All :
    (P : Node → Type 0) {p : Node → Bool} {n : Node} {b left : List Node}
    → Removed p n b left
    → All P b
    → All P left
Removed-All P (here e) (q, qs) = qs
Removed-All P (there e r) (q, qs) = (q, Removed-All P r qs)

Removed-Unique :
    {p : Node → Bool} {n : Node} {b left : List Node} → Removed p n b left → Unique b → Unique left
Removed-Unique (here e) (u, us) = us
Removed-Unique (there e r) (u, us) = (Removed-All _ r u, Removed-Unique r us)

Removed-length :
    {p : Node → Bool} {n : Node} {b left : List Node}
    → Removed p n b left
    → length b ≡ suc (length left)
Removed-length (here e) = refl
Removed-length (there e r) = ap suc (Removed-length r)

pub different : {a b : NodeId} → bytes_eq a b ≡ false → a ≢ b
different {a} e q = absurd (cc (e, subst (λ c. bytes_eq a c ≡ true) q (bytes_eq_refl a)))

-- After the first node with an identifier has left, no node has it.
Removed-lacks :
    (id : NodeId) {n : Node} {b left : List Node}
    → Removed (has_id id) n b left
    → Unique b
    → All (λ m. m.id ≢ id) left
Removed-lacks id (here {ns} e) (u, us) =
    subst (λ i. All (λ m. m.id ≢ i) ns) (bytes_eq_sound _ _ e) u
Removed-lacks id (there e r) (u, us) = ((λ q. absurd (different e q)), Removed-lacks id r us)

Lacks-All : (id : NodeId) (b : List Node) → Lacks (has_id id) b → All (λ m. m.id ≢ id) b
Lacks-All id [] l = tt
Lacks-All id (n ∷ b) (e, l) = (different e, Lacks-All id b l)

Unique-tail :
    (b : List Node) (node : Node)
    → All (λ m. m.id ≢ node.id) b
    → Unique b
    → Unique (b ++ (node ∷ []))
Unique-tail [] node a u = (tt, tt)
Unique-tail (n ∷ b) node (ne, a) (u, us) =
    (All-append _ b (node ∷ []) u ((λ q. ne (sym q)), tt), Unique-tail b node a us)

tail-IsValid :
    (left : List Node) (node : Node)
    → length left < capacity
    → All (λ m. m.id ≢ node.id) left
    → Unique left
    → IsValid (left ++ (node ∷ []))
tail-IsValid left node lt a u = record {
  bounded = omega (arith, length-append left (node ∷ []));
  unique = Unique-tail left node a u;
}

Inserted-IsValid :
    {node : Node} {b : Bucket} {r : (Option Node × Bool) × Bucket}
    → Inserted node b r
    → IsValid b
    → IsValid r.1
Inserted-IsValid {node} (refreshes n left r) v =
    tail-IsValid left node (omega (arith, Removed-length r, v.bounded))
      (Removed-lacks node.id r v.unique) (Removed-Unique r v.unique)
Inserted-IsValid {node} {b} (appends l ne) v =
    tail-IsValid b node (ground (arith, v.bounded)) (Lacks-All node.id b l) v.unique
Inserted-IsValid {node} {b} (evicts n left l full c r) v =
    tail-IsValid left node (omega (arith, Removed-length r, v.bounded))
      (Removed-All _ r (Lacks-All node.id b l)) (Removed-Unique r v.unique)
Inserted-IsValid (rejects l full w) v = v

-- `Insert` keeps a bucket at no more than eight nodes with distinct identifiers.
pub insert-IsValid : (node : Node) (b : Bucket) → IsValid b → IsValid (insert node b).1
insert-IsValid node b v = Inserted-IsValid (insert-Inserted node b) v

-- `Remove` keeps that too, and leaves no node with the identifier.
pub remove-IsValid :
    (id : NodeId) (b : Bucket)
    → IsValid b
    → IsValid (remove id b).1 × All (λ m. m.id ≢ id) (remove id b).1
unfolding remove
remove-IsValid id b v = elim (remove_first-cases (has_id id) b) [
  | inl (gone, lacks) ↦ rw (gone, remove) (v, Lacks-All id b lacks)
  | inr (left, n, q, r) ↦
      rw (q, remove)
        (
          record {
            bounded = omega (arith, Removed-length r, v.bounded);
            unique = Removed-Unique r v.unique;
          },
          Removed-lacks id r v.unique,
        )
]
