-- ===== src/Upgrade/Entries.antt =====
-- What `mapping` accepts.
use see_size.Base.{
  ◌==◌, string_eq, String, ◌≡◌, true, false, not, ◌||◌, Option, none, some, List, [], ◌∷◌, ◌++◌,
  if◌then◌else◌, contains, is_some, arith, length, length-append, ◌+◌, Bool-cases, inl, inr, subst,
  ap,
}
use see_size.Base.Dict.{Dict, lookup}
use see_size.Script.{ok, err, value_error}
use see_size.Upgrade.Parts.{partition}
use see_size.Upgrade.{upgrade_components, mapping_from, mapping}

-- Known components with values, each once: none stands in the part before it.
pub data WellFormed : Dict String String → Type 0 where
  empty : WellFormed []
  more :
      {d : Dict String String} (component value : String)
      → WellFormed d
      → contains upgrade_components component ≡ true
      → value == "" ≡ false
      → is_some (lookup component d) ≡ false
      → WellFormed (d ++ ((component, value) ∷ []))

mapping_from-WellFormed :
    (items : List String) (d d' : Dict String String)
    → WellFormed d
    → mapping_from items d ≡ ok d'
    → WellFormed d' × (length d' ≡ length items + length d)
unfolding mapping_from
mapping_from-WellFormed [] d d' k h =
    let e : d ≡ d' = cc in
    (subst WellFormed e k, omega (arith, ap (λ (x : Dict String String). length x) e))
mapping_from-WellFormed (item ∷ items) d d' k h =
    go (λ r i. mapping_from-WellFormed items r d' i) (partition item) h
  where
    go :
        ((r : Dict String String)
          → WellFormed r
          → mapping_from items r ≡ ok d'
          → WellFormed d' × (length d' ≡ length items + length r))
        → (o : Option (String × String))
        → elim o [
          | none ↦ err (value_error "use unique hub=..., agent=... or backup=... entries")
          | some (c, v) ↦
              if not (contains upgrade_components c) || v == "" || is_some (lookup c d)
              then err (value_error "use unique hub=..., agent=... or backup=... entries")
              else mapping_from items (d ++ ((c, v) ∷ []))
        ]
          ≡ ok d'
        → WellFormed d' × (length d' ≡ length (item ∷ items) + length d)
    go ih none e = absurd (ground arith)
    go ih (some (c, v)) e =
        elim (Bool-cases (not (contains upgrade_components c) || v == "" || is_some (lookup c d))) [
          | inl bad ↦ absurd (ground arith)
          | inr good ↦
              let next =
                ih (d ++ ((c, v) ∷ [])) (more c v k (ground arith) (ground arith) (ground arith))
                  (ground arith) in
              (next.0, omega (arith, next.1, length-append d ((c, v) ∷ [])))
        ]

-- What `mapping` returns has one entry for each item, each for another of the three components and
-- with a value that is not empty.
pub mapping-WellFormed :
    (items : List String) (d : Dict String String)
    → mapping items ≡ ok d
    → WellFormed d × (length d ≡ length items)
unfolding mapping
mapping-WellFormed items d h =
    let k = mapping_from-WellFormed items [] d empty h in (k.0, omega (arith, k.1))
