-- ===== src/Next/Placed.antt =====
-- The order in which v2_next_actions.py offers its actions.
use mathlib.Core.List.{Perm}
use paperread.Prelude.{
  ℕ, suc, ◌<◌, ◌≤◌, Bool, true, false, ◌≡◌, refl, sym, ◌∙◌, ap, Option, none, some, List, [], ◌∷◌,
  get_elem?, ok, arith, inl, inr, ◌⊎◌, Bool-cases, ltb, nat_beq, ◌||◌, ◌&&◌, Option-cases, All,
  eq_of_ok, eq_of_some, or_raise-eq-ok, >>=-eq-ok, ◌==◌, string_eq, String,
}
use text.Mathlib.TextEquality.{eq_iff}
use paperread.Contracts.Scalars.{ItemId}
use paperread.Contracts.Manifest.{ManifestItem, item_id_of}
use paperread.Next.Action.{
  NextAction, ActionLane, run_lane, worker_lane, local_prepare_lane, write_lane, user_lane,
  action_priority, position, lane_rank, key_error,
}
use paperread.Next.Derive.{
  Key, RunView, manifest_index, index_key, group_key, sort_key, key_lt, candidates, sorted_actions,
}
use paperread.Next.Order.{AllPairs, NotBefore, sorted_actions-Ascending}

abbrev pub is_run : ActionLane → Bool
is_run run_lane = true
is_run _ = false

abbrev pub lanes_in_order : List ActionLane
lanes_in_order = run_lane ∷ worker_lane ∷ local_prepare_lane ∷ write_lane ∷ user_lane ∷ []

-- No item comes before the first item of the manifest.
abbrev pub IsAtItem : List ManifestItem → Option ItemId → ℕ → Type 0
IsAtItem ms none i = i ≡ 0
IsAtItem ms (some id) i =
    (k : ℕ) × (m : ManifestItem) × (i ≡ suc k) × (get_elem? ms k ≡ some m) × (item_id_of m ≡ id)

-- Where an action stands: its item in the manifest, its lane and its name in the orders of those.
pub record Place (ms : List ManifestItem) (a : NextAction) : Type 0 where
  pub item : ℕ
  pub lane : ℕ
  pub rank : ℕ
  pub at_item : IsAtItem ms a.item_id item
  pub at_lane : get_elem? lanes_in_order lane ≡ some a.lane
  pub at_rank : get_elem? action_priority rank ≡ some a.action

-- Of three numbers, the first that differ decide.
abbrev pub Lexical : (i i' l l' r r' : ℕ) → Type 0
Lexical i i' l l' r r' = (i < i') ⊎ ((i ≡ i') × ((l < l') ⊎ ((l ≡ l') × (r ≤ r'))))

-- An action of the run's own lane comes before every other; among the rest, and among the run's, the
-- item decides, then the lane, then the name.
abbrev pub GoesFirst : List ManifestItem → NextAction → NextAction → Type 0
GoesFirst ms a b =
    (p : Place ms a) × (q : Place ms b) × (((is_run a.lane ≡ true) × (is_run b.lane ≡ false))
      ⊎ ((is_run a.lane ≡ is_run b.lane) × Lexical p.item q.item p.lane q.lane p.rank q.rank))

manifest_index-eq-some :
    (ms : List ManifestItem) (id : ItemId) {i : ℕ}
    → manifest_index ms id ≡ some i
    → (m : ManifestItem) × (get_elem? ms i ≡ some m) × (item_id_of m ≡ id)
unfolding manifest_index
manifest_index-eq-some [] id h = cc
manifest_index-eq-some (m ∷ ms) id {i} h = elim (Option-cases (manifest_index ms id)) [
  | inr (k, later) ↦
      let (n, at_k, named) = manifest_index-eq-some ms id later in
      let same : suc k ≡ i = eq_of_some (ground (arith, later)) in
      (n, ap (get_elem? (m ∷ ms)) (sym same) ∙ at_k, named)
  | inl missing ↦ elim (Bool-cases (item_id_of m == id)) [
    | inl here ↦
        let same : 0 ≡ i = eq_of_some (ground (arith, missing, here)) in
        (m, ap (get_elem? (m ∷ ms)) (sym same), (eq_iff (item_id_of m) id).0 here)
    | inr other ↦ absurd (ground (arith, missing, other))
  ]
]

position-eq-ok :
    (xs : List String) (key : String) {i : ℕ} → position xs key ≡ ok i → get_elem? xs i ≡ some key
unfolding position
position-eq-ok [] key h = cc
position-eq-ok (x ∷ xs) key {i} h = elim (Bool-cases (x == key)) [
  | inl here ↦
      let same : 0 ≡ i = eq_of_ok (ground (arith, here)) in
      ap (get_elem? (x ∷ xs)) (sym same) ∙ ap some ((eq_iff x key).0 here)
  | inr other ↦
      let (k, at_k, same) = >>=-eq-ok (position xs key) (λ k. ok (suc k)) (ground (arith, other)) in
      ap (get_elem? (x ∷ xs)) (sym (eq_of_ok same)) ∙ position-eq-ok xs key at_k
]

lane_rank-at : (lane : ActionLane) → get_elem? lanes_in_order (lane_rank lane) ≡ some lane
lane_rank-at run_lane = refl
lane_rank-at worker_lane = refl
lane_rank-at local_prepare_lane = refl
lane_rank-at write_lane = refl
lane_rank-at user_lane = refl

index_key-eq-ok :
    (ms : List ManifestItem) (id : Option ItemId) {i : ℕ}
    → index_key ms id ≡ ok i
    → IsAtItem ms id i
unfolding index_key
index_key-eq-ok ms none h = sym (eq_of_ok h)
index_key-eq-ok ms (some id) h =
    let (k, found, same) = >>=-eq-ok _ (λ k. ok (suc k)) h in
    let (m, at_k, named) = manifest_index-eq-some ms id (or_raise-eq-ok _ (key_error id) found) in
    (k, m, sym (eq_of_ok same), at_k, named)

-- The key of an action tells its place.
sort_key-Place :
    (ms : List ManifestItem) (a : NextAction) {k : Key}
    → sort_key ms a ≡ ok k
    → (p : Place ms a) × (k.group ≡ group_key a.lane)
      × (k.index ≡ p.item)
      × (k.lane ≡ p.lane)
      × (k.rank ≡ p.rank)
unfolding sort_key
sort_key-Place ms a {k} h =
    let (index, at_item, h1) = >>=-eq-ok (index_key ms a.item_id) _ h in
    let (rank, at_rank, h2) = >>=-eq-ok (position action_priority a.action) _ h1 in
    let built = eq_of_ok h2 in
    (
      record {
        item = index;
        lane = lane_rank a.lane;
        rank = rank;
        at_item = index_key-eq-ok ms a.item_id at_item;
        at_lane = lane_rank-at a.lane;
        at_rank = position-eq-ok action_priority a.action at_rank;
      },
      ap (λ j. j.group) (sym built),
      ap (λ j. j.index) (sym built),
      ap (λ j. j.lane) (sym built),
      ap (λ j. j.rank) (sym built),
    )

lexical_part :
    (a b : ℕ) (later : Bool)
    → (ltb b a || nat_beq b a && later) ≡ false
    → (a < b) ⊎ ((a ≡ b) × (later ≡ false))
lexical_part a b later h = elim (Bool-cases (ltb a b)) [
  | inl less ↦ inl (ground arith)
  | inr not_less ↦ let same : a ≡ b = ground arith in inr (same, ground arith)
]

-- What the comparison of two keys says of their parts.
key_lt-Lexical :
    (j k : Key)
    → key_lt k j ≡ false
    → (j.group < k.group)
      ⊎ ((j.group ≡ k.group) × Lexical j.index k.index j.lane k.lane j.rank k.rank)
key_lt-Lexical j k h = elim (lexical_part j.group k.group _ h) [
  | inl first ↦ inl first
  | inr (g, h1) ↦ elim (lexical_part j.index k.index _ h1) [
    | inl first ↦ inr (g, inl first)
    | inr (i, h2) ↦ elim (lexical_part j.lane k.lane _ h2) [
      | inl first ↦ inr (g, inr (i, inl first))
      | inr (l, h3) ↦ inr (g, inr (i, inr (l, ground arith)))
    ]
  ]
]

run_or_not :
    (l : ActionLane)
    → ((is_run l ≡ true) × (group_key l ≡ 0)) ⊎ ((is_run l ≡ false) × (group_key l ≡ 1))
run_or_not run_lane = inl (refl, refl)
run_or_not worker_lane = inr (refl, refl)
run_or_not local_prepare_lane = inr (refl, refl)
run_or_not write_lane = inr (refl, refl)
run_or_not user_lane = inr (refl, refl)

group_key-lt :
    (l l' : ActionLane) → group_key l < group_key l' → (is_run l ≡ true) × (is_run l' ≡ false)
group_key-lt l l' h = elim (run_or_not l) [
  | inr (_, one) ↦ elim (run_or_not l') [
    | inl (_, z) ↦ absurd (omega arith)
    | inr (_, z) ↦ absurd (omega arith)
  ]
  | inl (runs, none_before) ↦ elim (run_or_not l') [
    | inl (_, z) ↦ absurd (omega arith)
    | inr (waits, _) ↦ (runs, waits)
  ]
]

group_key-injective : (l l' : ActionLane) → group_key l ≡ group_key l' → is_run l ≡ is_run l'
group_key-injective l l' h = elim (run_or_not l) [
  | inr (waits, one) ↦ elim (run_or_not l') [
    | inl (_, z) ↦ absurd (omega arith)
    | inr (waits', _) ↦ waits ∙ sym waits'
  ]
  | inl (runs, none_before) ↦ elim (run_or_not l') [
    | inl (runs', _) ↦ runs ∙ sym runs'
    | inr (_, z) ↦ absurd (omega arith)
  ]
]

Lexical-moved :
    {i i' l l' r r' : ℕ} (j j' m m' s s' : ℕ)
    → i ≡ j
    → i' ≡ j'
    → l ≡ m
    → l' ≡ m'
    → r ≡ s
    → r' ≡ s'
    → Lexical i i' l l' r r'
    → Lexical j j' m m' s s'
Lexical-moved j j' m m' s s' a a' b b' c c' (inl h) = inl (omega arith)
Lexical-moved j j' m m' s s' a a' b b' c c' (inr (e, inl h)) = inr (omega arith, inl (omega arith))
Lexical-moved j j' m m' s s' a a' b b' c c' (inr (e, inr (f, h))) =
    inr (omega arith, inr (omega arith, omega arith))

NotBefore-GoesFirst :
    (ms : List ManifestItem) (a b : NextAction) → NotBefore ms a b → GoesFirst ms a b
NotBefore-GoesFirst ms a b (j, k, key_a, key_b, h) =
    let (p, g, i, l, r) = sort_key-Place ms a key_a in
    let (q, g', i', l', r') = sort_key-Place ms b key_b in
    (
      p,
      q,
      elim (key_lt-Lexical j k h) [
        | inl first ↦ inl (group_key-lt a.lane b.lane (ground (arith, first, g, g')))
        | inr (same, rest) ↦ inr (
          group_key-injective a.lane b.lane (sym g ∙ same ∙ g'),
          Lexical-moved _ _ _ _ _ _ i i' l l' r r' rest,
        )
      ],
    )

All-GoesFirst :
    (ms : List ManifestItem) (a : NextAction) (xs : List NextAction)
    → All (NotBefore ms a) xs
    → All (GoesFirst ms a) xs
All-GoesFirst ms a [] hs = tt
All-GoesFirst ms a (b ∷ xs) (h, hs) = (NotBefore-GoesFirst ms a b h, All-GoesFirst ms a xs hs)

AllPairs-GoesFirst :
    (ms : List ManifestItem) (xs : List NextAction)
    → AllPairs (NotBefore ms) xs
    → AllPairs (GoesFirst ms) xs
AllPairs-GoesFirst ms [] hs = tt
AllPairs-GoesFirst ms (a ∷ xs) (h, hs) = (All-GoesFirst ms a xs h, AllPairs-GoesFirst ms xs hs)

-- The sorted actions are the candidates in another order. The actions of the run's own lane come
-- first. Among these, and among the others, an action without an item comes before those of an item,
-- and the items are in the order of the manifest; on one item the lanes are in the order run, worker,
-- local preparation, write, user; and in one lane the actions are in the order of ACTION_PRIORITY.
pub sorted_actions-Placed :
    (view : RunView) {actions out : List NextAction}
    → candidates view ≡ ok actions
    → sorted_actions view ≡ ok out
    → Perm out actions × AllPairs (GoesFirst view.manifest.items) out
sorted_actions-Placed view c h =
    let (same, ordered) = sorted_actions-Ascending view c h in
    (same, AllPairs-GoesFirst view.manifest.items _ ordered)
