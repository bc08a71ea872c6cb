-- ===== src/Ddl/Names.antt =====
-- The names of the schemas (`loadSchemas` and `setNames` of cmd/genddl/main.go).
use pbench.Prelude.{
  sym, ◌∙◌, ◌≡◌, ◌≢◌, refl, Bool, true, false, [], ◌∷◌, ◌++◌, Text, codes, text_eq, text_eq_iff,
}
use pbench.Ddl.{Schema, suffix, to_hyphen, set_names, named, set_session_vars, variant, is_nil}

cancel_left : (p s t : Text) → p ++ s ≡ p ++ t → s ≡ t
cancel_left [] s t h = h
cancel_left (c ∷ p) s t h = cancel_left p s t (cc h)

differ : (s t : Text) → text_eq s t ≡ false → s ≢ t
differ s t h e = cc ((text_eq_iff s t).1 e, h)

-- The last part of a location's name.
ending : Bool → Bool → Bool → Text
unfolding suffix to_hyphen
ending iceberg partitioned zstd =
    to_hyphen (suffix partitioned (codes "_partitioned") [])
    ++ (to_hyphen (suffix iceberg (codes "_iceberg") (codes "_hive"))
        ++ to_hyphen (suffix zstd (codes "_zstd") []))

endings :
    (iceberg partitioned iceberg' partitioned' zstd : Bool)
    → ending iceberg partitioned zstd ≡ ending iceberg' partitioned' zstd
    → (iceberg ≡ iceberg') × (partitioned ≡ partitioned')
unfolding ending to_hyphen suffix text_eq
endings true true true true zstd h = (refl, refl)
endings true true true false zstd h = absurd (differ _ _ refl h)
endings true true false true zstd h = absurd (differ _ _ refl h)
endings true true false false zstd h = absurd (differ _ _ refl h)
endings true false true true zstd h = absurd (differ _ _ refl h)
endings true false true false zstd h = (refl, refl)
endings true false false true zstd h = absurd (differ _ _ refl h)
endings true false false false zstd h = absurd (differ _ _ refl h)
endings false true true true zstd h = absurd (differ _ _ refl h)
endings false true true false zstd h = absurd (differ _ _ refl h)
endings false true false true zstd h = (refl, refl)
endings false true false false zstd h = absurd (differ _ _ refl h)
endings false false true true zstd h = absurd (differ _ _ refl h)
endings false false true false zstd h = absurd (differ _ _ refl h)
endings false false false true zstd h = absurd (differ _ _ refl h)
endings false false false false zstd h = (refl, refl)

-- What stands in front of the ending of each location's name.
location_of : Schema → Text
location_of s = s.workload ++ (codes "-sf" ++ (s.scale_factor ++ (codes "-" ++ s.file_format)))

-- The location of a variant whose names are not given.
variant_location :
    (base : Schema) (iceberg partitioned : Bool)
    → is_nil base.schema_name ≡ true
    → (variant base (iceberg, partitioned)).location_name
      ≡ location_of base
        ++ ending iceberg partitioned (text_eq base.compression_method (codes "zstd"))
unfolding variant named set_names set_session_vars location_of ending
variant_location base iceberg partitioned h = simp h

-- Where the configuration does not name the schema, two schemas with the same location have the same
-- format and the same partitioning: no two of the four that are generated share a location.
pub variant_distinct :
    (base : Schema) (iceberg partitioned iceberg' partitioned' : Bool)
    → is_nil base.schema_name ≡ true
    → (variant base (iceberg, partitioned)).location_name
      ≡ (variant base (iceberg', partitioned')).location_name
    → (iceberg ≡ iceberg') × (partitioned ≡ partitioned')
variant_distinct base iceberg partitioned iceberg' partitioned' h e =
    let zstd = text_eq base.compression_method (codes "zstd") in
    endings iceberg partitioned iceberg' partitioned' zstd (
      cancel_left (location_of base) _ _ (
        sym (variant_location base iceberg partitioned h)
        ∙ e
        ∙ variant_location base iceberg' partitioned' h))
