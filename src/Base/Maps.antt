-- ===== src/Base/Maps.antt =====
-- Go's maps from strings, as association lists without repeated keys.
use mathlib.Core.Path.{◌≡◌, refl, ◌∙◌, subst}
use mathlib.Core.Logic.{inl, inr}
use mathlib.Core.Bool.{Bool, false, ◌||◌}
use mathlib.Core.Option.{Option, none, some}
use mathlib.Core.List.{List, [], ◌∷◌}
use native.Mathlib.Omega.{arith}
use velaros.Base.Tests.{Text, Bool-cases, text_eq, text_eq_iff, if◌then◌else◌}

abbrev pub TextMap {ℓ} : Type ℓ → Type ℓ
TextMap V = List (Text × V)

module _ {ℓ} {V : Type ℓ} where
  -- `v, ok := m[k]`
  unfoldable pub lookup : Text → TextMap V → Option V
  lookup k [] = none
  lookup k ((j, v) ∷ m) = if text_eq j k then some v else lookup k m

  -- `m[k] = v`
  unfoldable pub insert : Text → V → TextMap V → TextMap V
  insert k v [] = (k, v) ∷ []
  insert k v ((j, w) ∷ m) = if text_eq j k then (k, v) ∷ m else (j, w) ∷ insert k v m

  -- `delete(m, k)`
  unfoldable pub delete : Text → TextMap V → TextMap V
  delete k [] = []
  delete k ((j, v) ∷ m) = if text_eq j k then delete k m else (j, v) ∷ delete k m

  -- `for k, v := range m { into[k] = v }`
  unfoldable pub copy_into : TextMap V → TextMap V → TextMap V
  copy_into [] into = into
  copy_into ((k, v) ∷ m) into = copy_into m (insert k v into)

  pub lookup-insert :
      (k j : Text) (v : V) (m : TextMap V)
      → lookup j (insert k v m) ≡ (if text_eq k j then some v else lookup j m)
  unfolding lookup insert
  lookup-insert k j v [] = refl
  lookup-insert k j v ((i, w) ∷ m) =
      ground (arith, text_eq_iff k j, text_eq_iff i k, text_eq_iff i j, lookup-insert k j v m)

  pub lookup-delete :
      (k j : Text) (m : TextMap V)
      → lookup j (delete k m) ≡ (if text_eq k j then none else lookup j m)
  unfolding lookup delete
  lookup-delete k j [] = ground arith
  lookup-delete k j ((i, w) ∷ m) =
      ground (arith, text_eq_iff k j, text_eq_iff i k, text_eq_iff i j, lookup-delete k j m)

  -- What is not there is not deleted.
  pub delete-missing : (k : Text) (m : TextMap V) → lookup k m ≡ none → delete k m ≡ m
  unfolding lookup delete
  delete-missing k [] h = refl
  delete-missing k ((j, v) ∷ m) h = ground (arith, delete-missing k m)

  abbrev pub has_key : Text → TextMap V → Bool
  has_key k [] = false
  has_key k ((j, v) ∷ m) = text_eq j k || has_key k m

  -- No key stands twice.
  abbrev pub NoRepeats : TextMap V → Type 0
  NoRepeats [] = Unit
  NoRepeats ((k, v) ∷ m) = (has_key k m ≡ false) × NoRepeats m

  abbrev pub or_value : Option V → Option V → Option V
  or_value (some v) o = some v
  or_value none o = o

  lookup-missing : (k : Text) (m : TextMap V) → has_key k m ≡ false → lookup k m ≡ none
  unfolding lookup
  lookup-missing k [] h = refl
  lookup-missing k ((j, v) ∷ m) h = ground (arith, lookup-missing k m)

  -- A map that is copied into another one hides it.
  pub lookup-copy_into :
      (k : Text) (m into : TextMap V)
      → NoRepeats m
      → lookup k (copy_into m into) ≡ or_value (lookup k m) (lookup k into)
  unfolding lookup copy_into
  lookup-copy_into k [] into h = refl
  lookup-copy_into k ((j, v) ∷ m) into (fresh, h) =
      lookup-copy_into k m (insert j v into) h ∙ elim (Bool-cases (text_eq j k)) [
        | inl same ↦
            let gone : has_key k m ≡ false =
              subst (λ x. has_key x m ≡ false) ((text_eq_iff j k).0 same) fresh in
            rw (lookup-missing k m gone, lookup-insert j k v into, same) refl
        | inr differ ↦ rw (lookup-insert j k v into, differ) refl
      ]
