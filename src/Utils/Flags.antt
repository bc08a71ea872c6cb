-- ===== src/Utils/Flags.antt =====
-- `Pivot` of utils/presto_flags.go: the flags of several clusters, given as parallel arrays.
use pbench.Prelude.{
  sym, drop, ℕ, suc, ◌≡◌, refl, ap, ◌∙◌, Bool, false, List, [], ◌∷◌, Text, get_or, map,
}

pub record PrestoFlags : Type 0 where
  pub server_url : Text
  pub is_trino : Bool
  pub force_https : Bool
  pub user_name : Text
  pub password : Text

pub record PrestoFlagsArray : Type 0 where
  pub server_url : List Text
  pub is_trino : List Bool
  pub force_https : List Bool
  pub user_name : List Text
  pub password : List Text

pub with_url : Text → PrestoFlags
with_url url = record {
  server_url = url;
  is_trino = false;
  force_https = false;
  user_name = [];
  password = [];
}

-- `for i, v := range values { if i < len(ret) { ret[i].Field = v } }`, where `store` sets the field.
pub set_field {ℓ} :
    {A : Type ℓ} → (A → PrestoFlags → PrestoFlags) → List A → List PrestoFlags → List PrestoFlags
set_field store [] ret = ret
set_field store (v ∷ values) [] = []
set_field store (v ∷ values) (f ∷ ret) = store v f ∷ set_field store values ret

pub pivot : PrestoFlagsArray → List PrestoFlags
unfolding with_url set_field
pivot a =
    set_field (λ v f. record f { password = v }) a.password
      (set_field (λ v f. record f { user_name = v }) a.user_name
        (set_field (λ v f. record f { force_https = v }) a.force_https
          (set_field (λ v f. record f { is_trino = v }) a.is_trino (map with_url a.server_url))))

-- The flags of the server at position `i`, where an array that is too short gives the zero value.
abbrev flags_at : List Bool → List Bool → List Text → List Text → Text → ℕ → PrestoFlags
flags_at trino https user password url i = record {
  server_url = url;
  is_trino = get_or trino i false;
  force_https = get_or https i false;
  user_name = get_or user i [];
  password = get_or password i [];
}

-- One entry for each server, from position `i` on; what an array has beyond them is ignored.
abbrev pub by_position :
    List Bool → List Bool → List Text → List Text → ℕ → List Text → List PrestoFlags
by_position trino https user password i [] = []
by_position trino https user password i (url ∷ urls) =
    flags_at trino https user password url i ∷ by_position trino https user password (suc i) urls

get_or-drop {ℓ} :
    {A : Type ℓ} (xs : List A) (i : ℕ) (d : A) → get_or (drop 1 xs) i d ≡ get_or xs (suc i) d
get_or-drop [] i d = refl
get_or-drop (x ∷ xs) i d = refl

by_position_shift :
    (trino https : List Bool) (user password : List Text) (i : ℕ) (urls : List Text)
    → by_position (drop 1 trino) (drop 1 https) (drop 1 user) (drop 1 password) i urls
      ≡ by_position trino https user password (suc i) urls
by_position_shift trino https user password i [] = refl
by_position_shift trino https user password i (url ∷ urls) = λ k.
    record {
      server_url = url;
      is_trino = get_or-drop trino i false k;
      force_https = get_or-drop https i false k;
      user_name = get_or-drop user i [] k;
      password = get_or-drop password i [] k;
    }
    ∷ by_position_shift trino https user password (suc i) urls k

set_field-cons {ℓ} :
    {A : Type ℓ} (store : A → PrestoFlags → PrestoFlags) (d : A) (values : List A) (f : PrestoFlags)
    (ret : List PrestoFlags)
    → store d f ≡ f
    → set_field store values (f ∷ ret)
      ≡ store (get_or values 0 d) f ∷ set_field store (drop 1 values) ret
unfolding set_field
set_field-cons store d [] f ret h = ap (λ g. g ∷ ret) (sym h)
set_field-cons store d (v ∷ values) f ret h = refl

set_field_nil {ℓ} :
    {A : Type ℓ} (store : A → PrestoFlags → PrestoFlags) (values : List A)
    → set_field store values [] ≡ []
unfolding set_field
set_field_nil store [] = refl
set_field_nil store (v ∷ values) = refl

pivot_urls :
    (urls : List Text) (trino https : List Bool) (user password : List Text)
    → set_field
        (λ v f. record f { password = v })
        password
        (set_field
          (λ v f. record f { user_name = v })
          user
          (set_field
            (λ v f. record f { force_https = v })
            https
            (set_field (λ v f. record f { is_trino = v }) trino (map with_url urls))))
      ≡ by_position trino https user password 0 urls
unfolding with_url
pivot_urls [] trino https user password =
    rw
      (
        set_field_nil (λ v f. record f { is_trino = v }) trino,
        set_field_nil (λ v f. record f { force_https = v }) https,
        set_field_nil (λ v f. record f { user_name = v }) user,
      )
      (set_field_nil (λ v f. record f { password = v }) password)
pivot_urls (url ∷ urls) trino https user password =
    let f1 : PrestoFlags = flags_at trino [] [] [] url 0 in
    let f2 : PrestoFlags = flags_at trino https [] [] url 0 in
    let f3 : PrestoFlags = flags_at trino https user [] url 0 in
    let r1 = set_field (λ v f. record f { is_trino = v }) (drop 1 trino) (map with_url urls) in
    let r2 = set_field (λ v f. record f { force_https = v }) (drop 1 https) r1 in
    let r3 = set_field (λ v f. record f { user_name = v }) (drop 1 user) r2 in
    ap
      (λ ret.
        set_field (λ v f. record f { password = v }) password
          (set_field (λ v f. record f { user_name = v }) user
            (set_field (λ v f. record f { force_https = v }) https ret)))
      (set_field-cons (λ v f. record f { is_trino = v }) false trino (with_url url)
        (map with_url urls) refl)
    ∙ ap
        (λ ret.
          set_field (λ v f. record f { password = v }) password
            (set_field (λ v f. record f { user_name = v }) user ret))
        (set_field-cons (λ v f. record f { force_https = v }) false https f1 r1 refl)
    ∙ ap (set_field (λ v f. record f { password = v }) password)
        (set_field-cons (λ v f. record f { user_name = v }) [] user f2 r2 refl)
    ∙ set_field-cons (λ v f. record f { password = v }) [] password f3 r3 refl
    ∙ ap (λ fs. flags_at trino https user password url 0 ∷ fs)
        (pivot_urls urls (drop 1 trino) (drop 1 https) (drop 1 user) (drop 1 password)
          ∙ by_position_shift trino https user password 0 urls)

-- `Pivot` gives one entry for each server, in order. Entry `i` has the i-th value of every array, the
-- zero value where an array is shorter, and no array that is too long or too short causes a panic.
pub pivot-by_position :
    (a : PrestoFlagsArray)
    → pivot a ≡ by_position a.is_trino a.force_https a.user_name a.password 0 a.server_url
unfolding pivot
pivot-by_position a = pivot_urls a.server_url a.is_trino a.force_https a.user_name a.password
