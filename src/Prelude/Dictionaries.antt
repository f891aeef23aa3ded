-- ===== src/Prelude/Dictionaries.antt =====
-- Dictionaries with text keys: association lists in insertion order, as Python's `dict`.
use Prim.Native.String.{String}
use mathlib.Core.Path.{◌≡◌, refl, sym, ◌∙◌, ap, subst}
use mathlib.Core.Option.{Option, none, some}
use mathlib.Core.List.{List, [], ◌∷◌, ◌++◌}
use mathlib.Core.Logic.{inl, inr}
use native.Mathlib.Omega.{arith}
use text.Mathlib.Text.{◌==◌}
use text.Mathlib.TextEquality.{eq_iff}
use frontik.Prelude.Tests.{if◌then◌else◌, Bool-cases, if_true, if_false}
use frontik.Prelude.Lists.{All, Exists}

abbrev pub Dict {ℓ} : Type ℓ → Type ℓ
Dict V = List (String × V)

module _ {ℓ} {V : Type ℓ} where
  -- `d.get(k)`
  unfoldable pub lookup : String → Dict V → Option V
  lookup k [] = none
  lookup k ((j, v) ∷ d) = if j == k then some v else lookup k d

  -- `d[k] = v`
  unfoldable pub insert : String → V → Dict V → Dict V
  insert k v [] = (k, v) ∷ []
  insert k v ((j, w) ∷ d) = if j == k then (k, v) ∷ d else (j, w) ∷ insert k v d

  pub lookup-insert :
      (k j : String) (v : V) (d : Dict V)
      → lookup j (insert k v d) ≡ (if k == j then some v else lookup j d)
  unfolding lookup insert
  lookup-insert k j v [] = refl
  lookup-insert k j v ((i, w) ∷ d) =
      ground (arith, eq_iff k j, eq_iff i k, eq_iff i j, lookup-insert k j v d)

  abbrev pub values : Dict V → List V
  values [] = []
  values ((k, v) ∷ d) = v ∷ values d

pub some_inj {ℓ} : {A : Type ℓ} {a b : A} → some a ≡ some b → a ≡ b
some_inj {a} h = ap (λ o. elim o [ none ↦ a | some c ↦ c ]) h

-- what holds of all values of a dictionary holds when one is put in that has it
pub All-values-insert {ℓ κ} :
    {V : Type ℓ} (P : V → Type κ) (k : String) (v : V) (d : Dict V)
    → All P (values d)
    → P v
    → All P (values (insert k v d))
unfolding insert
All-values-insert P k v [] hs h = (h, tt)
All-values-insert P k v ((j, w) ∷ d) (hw, hs) h = elim (Bool-cases (j == k)) [
  | inl same ↦ rw same (h, hs)
  | inr other ↦ rw other (hw, All-values-insert P k v d hs h)
]

pub lookup-All {ℓ κ} :
    {V : Type ℓ} (P : V → Type κ) (k : String) (d : Dict V) {v : V}
    → All P (values d)
    → lookup k d ≡ some v
    → P v
unfolding lookup
lookup-All P k [] hs h = cc h
lookup-All P k ((j, w) ∷ d) {v} (hw, hs) h = elim (Bool-cases (j == k)) [
  | inl same ↦ subst P (some_inj (sym (if_true _ _ _ same) ∙ h)) hw
  | inr other ↦ lookup-All P k d hs (sym (if_false _ _ _ other) ∙ h)
]

-- `d.update({key(v): v for v in vs})`
unfoldable pub insert_by {ℓ} : {V : Type ℓ} → (V → String) → List V → Dict V → Dict V
insert_by key [] d = d
insert_by key (v ∷ vs) d = insert_by key vs (insert (key v) v d)

module _ {V : Type 0} (key : V → String) where
  -- each value stands under its own key, and no key twice
  unfoldable pub IsKeyed : Dict V → Type 0
  unfolding lookup
  IsKeyed [] = Unit
  IsKeyed ((k, v) ∷ d) = (key v ≡ k) × (lookup k d ≡ none) × IsKeyed d

  pub insert-IsKeyed : (v : V) (d : Dict V) → IsKeyed d → IsKeyed (insert (key v) v d)
  unfolding IsKeyed insert lookup
  insert-IsKeyed v [] h = (refl, refl, tt)
  insert-IsKeyed v ((k, w) ∷ d) (named, fresh, rest) = elim (Bool-cases (k == key v)) [
    | inl same ↦
        rw same (refl, subst (λ j. lookup j d ≡ none) ((eq_iff k (key v)).0 same) fresh, rest)
    | inr other ↦ rw other (
      named,
      ground (arith, lookup-insert (key v) k v d, eq_iff (key v) k, eq_iff k (key v)),
      insert-IsKeyed v d rest,
    )
  ]

  pub lookup-IsKeyed :
      (v : V) (d : Dict V) → IsKeyed d → Exists (λ w. w ≡ v) (values d) → lookup (key v) d ≡ some v
  unfolding IsKeyed lookup
  lookup-IsKeyed v [] h e = elim e [ ]
  lookup-IsKeyed v ((k, w) ∷ d) (named, fresh, rest) (inl here) = ground (arith, eq_iff k (key v))
  lookup-IsKeyed v ((k, w) ∷ d) (named, fresh, rest) (inr there) =
      ground (arith, eq_iff k (key v), lookup-IsKeyed v d rest there)

  pub lookup-named : (k : String) (d : Dict V) {v : V} → IsKeyed d → lookup k d ≡ some v → key v ≡ k
  unfolding IsKeyed lookup
  lookup-named k [] h found = cc found
  lookup-named k ((j, w) ∷ d) {v} (named, fresh, rest) found = elim (Bool-cases (j == k)) [
    | inl same ↦
        subst (λ u. key u ≡ k) (some_inj (sym (if_true _ _ _ same) ∙ found))
          (named ∙ (eq_iff j k).0 same)
    | inr other ↦ lookup-named k d rest (sym (if_false _ _ _ other) ∙ found)
  ]

  -- values that are put in again under their keys make the same dictionary
  insert-fresh :
      (k : String) (v : V) (d : Dict V) → lookup k d ≡ none → insert k v d ≡ d ++ (k, v) ∷ []
  unfolding insert lookup
  insert-fresh k v [] h = refl
  insert-fresh k v ((j, w) ∷ d) h = ground (arith, insert-fresh k v d)

  abbrev AllFresh : Dict V → Dict V → Type 0
  AllFresh d [] = Unit
  AllFresh d ((k, v) ∷ e) = (lookup k d ≡ none) × AllFresh d e

  AllFresh-snoc :
      (d e : Dict V) (k : String) (v : V)
      → lookup k e ≡ none
      → AllFresh d e
      → AllFresh (insert k v d) e
  unfolding lookup
  AllFresh-snoc d [] k v h hs = tt
  AllFresh-snoc d ((j, w) ∷ e) k v h (fresh, hs) = (
    ground (arith, lookup-insert k j v d, eq_iff k j, eq_iff j k),
    AllFresh-snoc d e k v (ground arith) hs,
  )

  append_nil : (d : Dict V) → d ≡ d ++ []
  append_nil [] = refl
  append_nil (x ∷ d) = ap (λ r. x ∷ r) (append_nil d)

  append_assoc : (d : Dict V) (x : String × V) (e : Dict V) → (d ++ x ∷ []) ++ e ≡ d ++ x ∷ e
  append_assoc [] x e = refl
  append_assoc (y ∷ d) x e = ap (λ r. y ∷ r) (append_assoc d x e)

  insert_by-append : (d e : Dict V) → IsKeyed e → AllFresh d e → insert_by key (values e) d ≡ d ++ e
  unfolding insert_by IsKeyed
  insert_by-append d [] h hs = append_nil d
  insert_by-append d ((k, v) ∷ e) (named, fresh, rest) (new, hs) =
      subst (λ j. insert_by key (values e) (insert j v d) ≡ d ++ (k, v) ∷ e) (sym named)
        (insert_by-append (insert k v d) e rest (AllFresh-snoc d e k v fresh hs)
          ∙ (ap (λ r. r ++ e) (insert-fresh k v d new) ∙ append_assoc d (k, v) e))

  fresh_start : (e : Dict V) → AllFresh [] e
  unfolding lookup
  fresh_start [] = tt
  fresh_start ((k, v) ∷ e) = (refl, fresh_start e)

  pub insert_by-values : (d : Dict V) → IsKeyed d → insert_by key (values d) [] ≡ d
  insert_by-values d h = insert_by-append [] d h (fresh_start d)
