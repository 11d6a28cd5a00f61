-- ===== src/Next/Order.antt =====
-- The sort of v2_next_actions.py: `candidates.sort(key=...)`.
use paperread.Prelude.{
  true, false, ◌≡◌, refl, ap, List, [], ◌∷◌, map, ok, arith, inl, inr, Bool-cases, Result-cases,
  All, eq_of_ok, subst,
}
use mathlib.Core.List.{
  Perm, Pairwise, Mem, Pairwise-singleton, forall_mem-cons, mem-cons_of_mem, mem-cons_self,
}
use mathlib.Core.List.Perm
use paperread.Contracts.Manifest.{ManifestItem}
use paperread.Next.Action.{NextAction}
use paperread.Next.Derive.{
  Key, RunView, sort_key, key_lt, keyed, insert_keyed, sort_keyed, candidates, sorted_actions,
}

-- No later pair has a smaller key.
abbrev Ascending : List (Key × NextAction) → Type 0
Ascending = Pairwise (λ p q. key_lt q.0 p.0 ≡ false)

key_lt_trans : (i j k : Key) → key_lt j i ≡ false → key_lt k j ≡ false → key_lt k i ≡ false
key_lt_trans i j k p q = ground arith

key_lt_asym : (i j : Key) → key_lt i j ≡ true → key_lt j i ≡ false
key_lt_asym i j p = ground arith

insert_keyed-perm :
    (x : Key × NextAction) (ys : List (Key × NextAction)) → Perm (insert_keyed x ys) (x ∷ ys)
unfolding insert_keyed
insert_keyed-perm x [] = Perm.rfl
insert_keyed-perm x (y ∷ ys) = elim (Bool-cases (key_lt y.0 x.0)) [
  | inl p ↦ rw p (Perm.trans (Perm.cons y (insert_keyed-perm x ys)) (Perm.swap x y ys))
  | inr p ↦ rw p Perm.rfl
]

pub sort_keyed-perm : (xs : List (Key × NextAction)) → Perm (sort_keyed xs) xs
unfolding sort_keyed
sort_keyed-perm [] = Perm.rfl
sort_keyed-perm (x ∷ xs) =
    Perm.trans (insert_keyed-perm x (sort_keyed xs)) (Perm.cons x (sort_keyed-perm xs))

abbrev IsBelow : Key × NextAction → List (Key × NextAction) → Type 0
IsBelow x ys = (y : Key × NextAction) → Mem y ys → key_lt y.0 x.0 ≡ false

IsBelow-cons :
    (x : Key × NextAction) {y : Key × NextAction} {ys : List (Key × NextAction)}
    → key_lt y.0 x.0 ≡ false
    → IsBelow x ys
    → IsBelow x (y ∷ ys)
IsBelow-cons x p h = (forall_mem-cons (λ y. hlevel)).1 (p, h)

IsBelow-perm :
    (x : Key × NextAction) {xs ys : List (Key × NextAction)}
    → Perm xs ys
    → IsBelow x ys
    → IsBelow x xs
IsBelow-perm x p h y m = h y ((Perm.mem_iff p).0 m)

insert_keyed-Ascending :
    (x : Key × NextAction) {ys : List (Key × NextAction)}
    → Ascending ys
    → Ascending (insert_keyed x ys)
unfolding insert_keyed
insert_keyed-Ascending x Pairwise.nil = Pairwise-singleton _ x
insert_keyed-Ascending x (Pairwise.cons {a = y} {l = ys} below s) =
    elim (Bool-cases (key_lt y.0 x.0)) [
      | inl p ↦ rw p (
          Pairwise.cons
            (IsBelow-perm y (insert_keyed-perm x ys) (IsBelow-cons y (key_lt_asym y.0 x.0 p) below))
            (insert_keyed-Ascending x s))
      | inr p ↦ rw p (
          Pairwise.cons (IsBelow-cons x p (λ z m. key_lt_trans x.0 y.0 z.0 p (below z m)))
            (Pairwise.cons below s))
    ]

pub sort_keyed-Ascending : (xs : List (Key × NextAction)) → Ascending (sort_keyed xs)
unfolding sort_keyed
sort_keyed-Ascending [] = Pairwise.nil
sort_keyed-Ascending (x ∷ xs) = insert_keyed-Ascending x (sort_keyed-Ascending xs)

-- Each element is related to all that come after it.
abbrev pub AllPairs {ℓ κ} : {A : Type ℓ} → (A → A → Type κ) → List A → Type κ
AllPairs R [] = Unit
AllPairs R (x ∷ xs) = All (R x) xs × AllPairs R xs

-- Both actions have a key, and that of the second is not smaller.
abbrev pub NotBefore : List ManifestItem → NextAction → NextAction → Type 0
NotBefore ms a b =
    (j k : Key) × (sort_key ms a ≡ ok j) × (sort_key ms b ≡ ok k) × (key_lt k j ≡ false)

module _ (ms : List ManifestItem) where
  abbrev HasKey : Key × NextAction → Type 0
  HasKey p = sort_key ms p.1 ≡ ok p.0

  keyed-HasKey :
      (actions : List NextAction) {pairs : List (Key × NextAction)}
      → keyed ms actions ≡ ok pairs
      → All HasKey pairs × (map (λ p. p.1) pairs ≡ actions)
  unfolding keyed
  keyed-HasKey [] h = subst (λ t. All HasKey t × (map (λ p. p.1) t ≡ [])) (eq_of_ok h) (tt, refl)
  keyed-HasKey (a ∷ actions) {pairs} h = elim (Result-cases (sort_key ms a)) [
    | inl (k, e) ↦ elim (Result-cases (keyed ms actions)) [
      | inl (rest, f) ↦
          let (keys, same) = keyed-HasKey actions f in
          let built : (k, a) ∷ rest ≡ pairs = ground arith in
          subst (λ t. All HasKey t × (map (λ p. p.1) t ≡ a ∷ actions)) built
            ((e, keys), ap (◌∷◌ a) same)
      | inr (_, f) ↦ absurd (ground arith)
    ]
    | inr (_, e) ↦ absurd (ground arith)
  ]

  insert_keyed-HasKey :
      (x : Key × NextAction) (ys : List (Key × NextAction))
      → HasKey x
      → All HasKey ys
      → All HasKey (insert_keyed x ys)
  unfolding insert_keyed
  insert_keyed-HasKey x [] h hs = (h, tt)
  insert_keyed-HasKey x (y ∷ ys) h hs = elim (Bool-cases (key_lt y.0 x.0)) [
    | inl p ↦ rw p (hs.0, insert_keyed-HasKey x ys h hs.1)
    | inr p ↦ rw p (h, hs)
  ]

  sort_keyed-HasKey : (xs : List (Key × NextAction)) → All HasKey xs → All HasKey (sort_keyed xs)
  unfolding sort_keyed
  sort_keyed-HasKey [] hs = tt
  sort_keyed-HasKey (x ∷ xs) hs =
      insert_keyed-HasKey x (sort_keyed xs) hs.0 (sort_keyed-HasKey xs hs.1)

  below_actions :
      (x : Key × NextAction) (ys : List (Key × NextAction))
      → HasKey x
      → All HasKey ys
      → IsBelow x ys
      → All (NotBefore ms x.1) (map (λ p. p.1) ys)
  below_actions x [] h hs f = tt
  below_actions x (y ∷ ys) h hs f = (
    (x.0, y.0, h, hs.0, f y mem-cons_self),
    below_actions x ys h hs.1 (λ z m. f z (mem-cons_of_mem y m)),
  )

  Ascending-actions :
      {xs : List (Key × NextAction)}
      → Ascending xs
      → All HasKey xs
      → AllPairs (NotBefore ms) (map (λ p. p.1) xs)
  Ascending-actions Pairwise.nil hs = tt
  Ascending-actions (Pairwise.cons {a = x} {l = xs} below s) hs =
      (below_actions x xs hs.0 hs.1 below, Ascending-actions s hs.1)

-- The sort keeps the candidates, and brings their keys into order.
pub sorted_actions-Ascending :
    (view : RunView) {actions out : List NextAction}
    → candidates view ≡ ok actions
    → sorted_actions view ≡ ok out
    → Perm out actions × AllPairs (NotBefore view.manifest.items) out
unfolding sorted_actions
sorted_actions-Ascending view {actions} {out} c h =
    elim (Result-cases (keyed view.manifest.items actions)) [
      | inl (pairs, e) ↦
          let (keys, same) = keyed-HasKey view.manifest.items actions e in
          let built : map (λ p. p.1) (sort_keyed pairs) ≡ out = ground arith in
          (
            subst (λ t. Perm t actions) built
                (subst (Perm (map (λ p. p.1) (sort_keyed pairs))) same
                  (Perm.map (λ p. p.1) (sort_keyed-perm pairs))),
            subst (AllPairs (NotBefore view.manifest.items)) built (
                Ascending-actions view.manifest.items (sort_keyed-Ascending pairs)
                  (sort_keyed-HasKey view.manifest.items pairs keys)),
          )
      | inr (_, e) ↦ absurd (ground arith)
    ]
