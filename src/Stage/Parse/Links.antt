-- ===== src/Stage/Parse/Links.antt =====
-- The links of the stages in a map, and how entering a stage and adding a link change their number
-- (stage/map.go).
use pbench.Prelude.{
  ℕ, suc, ◌+◌, ◌≡◌, ◌≢◌, refl, ap, ◌∙◌, true, false, none, some, List, [], ◌∷◌, ◌++◌, Text, Map,
  lookup, insert, lookup-insert, UniqueKeys, text_eq, text_eq_iff, text_eq_self, if◌then◌else◌,
  arith, Bool-cases, inl, inr,
}
use pbench.Stage.Config.{Stage}
use pbench.Stage.Parse.{put}

-- How often an id stands in a list.
unfoldable pub count_id : Text → List Text → ℕ
count_id x [] = 0
count_id x (y ∷ ys) = let rest = count_id x ys in if text_eq y x then suc rest else rest

-- The links to a stage, of all stages of the map.
unfoldable pub links_to : Text → Map Stage → (Text → List Text) → ℕ
unfolding count_id
links_to x [] next = 0
links_to x ((k, s) ∷ m) next = count_id x (next k) + links_to x m next

count_id-append :
    (x : Text) (ys zs : List Text) → count_id x (ys ++ zs) ≡ count_id x ys + count_id x zs
unfolding count_id
count_id-append x [] zs = omega arith
count_id-append x (y ∷ ys) zs = ground (arith, count_id-append x ys zs)

pub links_to-insert :
    (x k : Text) (s : Stage) (m : Map Stage) (next : Text → List Text)
    → lookup k m ≡ none
    → links_to x (insert k s m) next ≡ links_to x m next + count_id x (next k)
unfolding links_to lookup insert
links_to-insert x k s [] next h = omega arith
links_to-insert x k s ((j, t) ∷ m) next h = elim (Bool-cases (text_eq j k)) [
  | inl e ↦ absurd (cc (rw e at h))
  | inr e ↦ rw e (omega (arith, links_to-insert x k s m next (rw e at h)))
]

other_key :
    (j k : Text) (s : Stage) (m : Map Stage)
    → text_eq j k ≡ false
    → lookup j m ≡ none
    → (if text_eq k j then some s else lookup j m) ≡ none
other_key j k s m e fresh = ground (arith, text_eq_iff j k, text_eq_iff k j)

pub UniqueKeys-insert :
    (k : Text) (s : Stage) (m : Map Stage) → UniqueKeys m → UniqueKeys (insert k s m)
unfolding lookup insert
UniqueKeys-insert k s [] u = (refl, tt)
UniqueKeys-insert k s ((j, t) ∷ m) (fresh, u) = elim (Bool-cases (text_eq j k)) [
  | inl e ↦ rw e (rw ((text_eq_iff j k).0 e) at fresh, u)
  | inr e ↦ rw e (lookup-insert k j s m ∙ other_key j k s m e fresh, UniqueKeys-insert k s m u)
]

links_to_absent :
    (x k : Text) (v : List Text) (m : Map Stage) (next : Text → List Text)
    → lookup k m ≡ none
    → links_to x m (put k v next) ≡ links_to x m next
unfolding links_to lookup put
links_to_absent x k v [] next h = refl
links_to_absent x k v ((j, t) ∷ m) next h = elim (Bool-cases (text_eq j k)) [
  | inl e ↦ absurd (cc (rw e at h))
  | inr e ↦
      ground (arith, e, text_eq_iff j k, text_eq_iff k j, links_to_absent x k v m next (rw e at h))
]

put_same :
    (k j : Text) (v : List Text) (next : Text → List Text) → text_eq j k ≡ true → put k v next j ≡ v
unfolding put
put_same k j v next e = ground (arith, text_eq_iff j k, text_eq_iff k j)

count_one : (x y : Text) → count_id x (y ∷ []) ≡ (if text_eq y x then 1 else 0)
unfolding count_id
count_one x y = refl

pub links_to_present :
    (x k child : Text) (m : Map Stage) (next : Text → List Text)
    → UniqueKeys m
    → lookup k m ≢ none
    → links_to x m (put k (next k ++ child ∷ []) next)
      ≡ links_to x m next + (if text_eq child x then 1 else 0)
unfolding links_to lookup put
links_to_present x k child [] next u h = absurd (h refl)
links_to_present x k child ((j, t) ∷ m) next (fresh, u) h = elim (Bool-cases (text_eq j k)) [
  | inl e ↦
      let same = (text_eq_iff j k).0 e in
      let v = next k ++ child ∷ [] in
      omega (
        arith,
        ap (count_id x) (put_same k j v next e),
        count_id-append x (next k) (child ∷ []),
        links_to_absent x k v m next (rw same at fresh),
        count_one x child,
        ap (λ i. count_id x (next i)) same,
      )
  | inr e ↦
      ground (
        arith,
        e,
        text_eq_iff j k,
        text_eq_iff k j,
        links_to_present x k child m next u (rw e at h),
      )
]

added_one : (y x : Text) (counts : Text → ℕ) → y ≡ x → suc (counts y) ≡ counts x + 1
added_one y x counts e = omega (arith, ap counts e)

pub added :
    (x child : Text) (counts : Text → ℕ)
    → put child (suc (counts child)) counts x ≡ counts x + (if text_eq child x then 1 else 0)
unfolding put
added x child counts = elim (Bool-cases (text_eq child x)) [
  | inl e ↦ rw e (added_one child x counts ((text_eq_iff child x).0 e))
  | inr e ↦ rw e (omega arith)
]

pub entered : (x : Text) (nexts : List Text) (n : ℕ) → nexts ≡ [] → n ≡ n + count_id x nexts
unfolding count_id
entered x [] n h = omega arith
entered x (y ∷ ys) n h = absurd (cc h)

pub before_insert :
    (k j : Text) (s : Stage) (m : Map Stage) → lookup j (insert k s m) ≡ none → lookup j m ≡ none
before_insert k j s m h = ground (arith, lookup-insert k j s m)

pub inserted : (k : Text) (s : Stage) (m : Map Stage) → lookup k (insert k s m) ≢ none
inserted k s m = ground (arith, lookup-insert k k s m, text_eq_self k)
