-- ===== src/Stage/Links/Depth.antt =====
-- The recursion of `checkStageLinks` in stage/map.go ends.
use pbench.Prelude.{
  ap, text_eq_self, ℕ, zero, suc, ◌<◌, ◌≤◌, ◌≡◌, ◌≢◌, refl, true, false, List, [], ◌∷◌, Text,
  text_eq, text_eq_iff, if◌then◌else◌, arith, Bool-cases, inl, inr, length,
}
use pbench.Stage.Links.{
  Check, accepted, cycle, duplicate, too_deep, has, if_accepted, check_nexts, check_links_impl,
  check_stage_links,
}

-- How many of the stages have not been visited.
left : List Text → List Text → ℕ
left [] visiting = 0
left (a ∷ ids) visiting = let rest = left ids visiting in if has a visiting then rest else suc rest

left_less : (ids visiting : List Text) (x : Text) → left ids (x ∷ visiting) ≤ left ids visiting
unfolding left has
left_less [] visiting x = omega arith
left_less (a ∷ ids) visiting x = ground (arith, left_less ids visiting x)

left_fewer :
    (ids visiting : List Text) (x : Text)
    → has x ids ≡ true
    → has x visiting ≡ false
    → left ids (x ∷ visiting) < left ids visiting
unfolding left has
left_fewer [] visiting x h k = absurd (cc h)
left_fewer (a ∷ ids) visiting x h k = elim (Bool-cases (text_eq a x)) [
  | inl same ↦
      ground (arith, (text_eq_iff a x).0 same, (text_eq_iff x a).1, left_less ids visiting x)
  | inr other ↦ ground (arith, left_less ids visiting x, left_fewer ids visiting x)
]

if_accepted-too_deep : (c d : Check) → c ≢ too_deep → d ≢ too_deep → if_accepted c d ≢ too_deep
unfolding if_accepted
if_accepted-too_deep accepted d h k = k
if_accepted-too_deep (cycle t) d h k = h
if_accepted-too_deep (duplicate t u) d h k = h
if_accepted-too_deep too_deep d h k = h

has_head : (c : Text) (cs : List Text) → has c (c ∷ cs) ≡ true
unfolding has
has_head c cs = rw (text_eq_self c) refl

has_tail : (y c : Text) (cs : List Text) → has y cs ≡ true → has y (c ∷ cs) ≡ true
unfolding has
has_tail y c cs h = ground arith

nexts_deep :
    (check : Text → Check) (id : Text) (cs seen : List Text)
    → ((y : Text) → has y cs ≡ true → check y ≢ too_deep)
    → check_nexts check id cs seen ≢ too_deep
unfolding check_nexts
nexts_deep check id [] seen h = λ e. cc e
nexts_deep check id (c ∷ cs) seen h = elim (Bool-cases (has c seen)) [
  | inl e ↦ rw e (λ x. cc x)
  | inr e ↦ rw e (
      if_accepted-too_deep (check c) _ (h c (has_head c cs))
        (nexts_deep check id cs (c ∷ seen) (λ y k. h y (has_tail y c cs k))))
]

deep_enough :
    (depth : ℕ) (ids : List Text) (next : Text → List Text) (visiting : List Text) (id : Text)
    → ((x y : Text) → has x ids ≡ true → has y (next x) ≡ true → has y ids ≡ true)
    → has id ids ≡ true
    → left ids visiting < depth
    → check_links_impl depth next visiting id ≢ too_deep
unfolding check_links_impl
deep_enough zero ids next visiting id closed h k = absurd (omega arith)
deep_enough (suc depth) ids next visiting id closed h k = elim (Bool-cases (has id visiting)) [
  | inl e ↦ rw e (λ x. cc x)
  | inr e ↦ rw e (
      nexts_deep (check_links_impl depth next (id ∷ visiting)) id (next id) [] (λ y link.
        deep_enough depth ids next (id ∷ visiting) y closed (closed id y h link)
          (omega (arith, left_fewer ids visiting id h e))))
]

left_nil : (ids : List Text) → left ids [] ≡ length ids
unfolding left has
left_nil [] = refl
left_nil (a ∷ ids) = ap suc (left_nil ids)

-- On a finite set of stages that the links do not leave, the recursion ends, cycles or not: its depth
-- never exceeds the number of stages by more than one.
pub check_stage_links-Ends :
    (ids : List Text) (next : Text → List Text) (id : Text)
    → ((x y : Text) → has x ids ≡ true → has y (next x) ≡ true → has y ids ≡ true)
    → has id ids ≡ true
    → check_stage_links ids next id ≢ too_deep
unfolding check_stage_links
check_stage_links-Ends ids next id closed h =
    deep_enough (suc (length ids)) ids next [] id closed h (omega (arith, left_nil ids))
