-- ===== src/Pattern/Params.antt =====
-- message_params.go: `Get`. `fold` is `strings.EqualFold`.
use velaros.Base.{
  ◌≡◌, refl, ap, Bool, true, false, some, [], ◌∷◌, Text, text_eq, text_eq_iff, text_eq_refl,
  if◌then◌else◌, arith, inl, inr, Bool-cases,
}
use velaros.Base.Maps.{lookup, has_key}
use velaros.Pattern.Matching.{MessageParams}

-- `Get`; the map's entries come in the order of the list.
unfoldable pub get_param : (Text → Text → Bool) → Text → MessageParams → Text
get_param fold key [] = []
get_param fold key ((k, v) ∷ p) = if fold k key then v else get_param fold key p

later : (i j u : Text) (p : MessageParams) → has_key i p ≡ true → has_key i ((j, u) ∷ p) ≡ true
later i j u p h = ground arith

-- If only one key of the map is the given one up to case, `Get` gives its value, in whatever order
-- Go goes through the map.
get_param-only :
    (fold : Text → Text → Bool) (key k v : Text) (p : MessageParams)
    → lookup k p ≡ some v
    → fold k key ≡ true
    → ((j : Text) → has_key j p ≡ true → fold j key ≡ true → j ≡ k)
    → get_param fold key p ≡ v
unfolding get_param lookup
get_param-only fold key k v [] here same only = absurd cc
get_param-only fold key k v ((j, u) ∷ p) here same only = elim (Bool-cases (fold j key)) [
  | inl hit ↦
      let is : j ≡ k = only j (rw (text_eq_refl j) refl) hit in
      let value : some u ≡ some v = rw ((text_eq_iff j k).1 is) at here in rw hit cc
  | inr miss ↦ elim (Bool-cases (text_eq j k)) [
    | inl is ↦
        let folded : fold j key ≡ fold k key = ap (λ x. fold x key) ((text_eq_iff j k).0 is) in
        absurd cc
    | inr differ ↦
        rw miss
          (get_param-only fold key k v p (rw differ at here) same (λ i h. only i (later i j u p h)))
  ]
]

-- If no key of the map is the given one up to case, `Get` gives the empty string.
get_param-none :
    (fold : Text → Text → Bool) (key : Text) (p : MessageParams)
    → ((j : Text) → has_key j p ≡ true → fold j key ≡ false)
    → get_param fold key p ≡ []
unfolding get_param
get_param-none fold key [] differ = refl
get_param-none fold key ((j, u) ∷ p) differ =
    rw (differ j (rw (text_eq_refl j) refl))
      (get_param-none fold key p (λ i h. differ i (later i j u p h)))
