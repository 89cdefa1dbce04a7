-- ===== src/Robots/Flight/Leaders.antt =====
-- Who fetches and who waits in the single flight of crates/erabi-crawler/src/robots.rs.
use erabi.Base.{
  ℕ, suc, ◌≤◌, ◌≡◌, refl, ap, ◌∙◌, subst, inl, inr, true, false, List, [], ◌∷◌, arith, Bool-cases,
  if◌then◌else◌,
}
use erabi.Pacing.{OriginKey}
use erabi.Pacing.Admission.{origin_eq}
use erabi.Pacing.Admission.Origins.{origin_eq_iff}
use erabi.Robots.Flight.{
  contains, remove, Turn, follows, leads, enter, Flights, with_guard, drop_flight, Step, enters,
  drops, Reach, starts, steps,
}

-- How many tasks hold a guard for the origin.
unfoldable pub count : OriginKey → List OriginKey → ℕ
count k [] = 0
count k (j ∷ js) = let rest = count k js in if origin_eq j k then suc rest else rest

count-remove : (k j : OriginKey) (js : List OriginKey) → count k (remove j js) ≤ count k js
unfolding count remove
count-remove k j [] = omega arith
count-remove k j (i ∷ js) = ground (arith, count-remove k j js)

count_absent : (k : OriginKey) (js : List OriginKey) → contains k js ≡ false → count k js ≡ 0
unfolding count contains
count_absent k [] h = refl
count_absent k (i ∷ js) h = ground (arith, h, count_absent k js)

-- The entries are the guards, and no origin has two.
record IsSingle (s : Flights) : Type 0 where
  same : s.guards ≡ s.in_flight
  one : (k : OriginKey) → count k s.in_flight ≤ 1

count_entered :
    (k origin : OriginKey) (js : List OriginKey)
    → contains origin js ≡ false
    → count k js ≤ 1
    → count k (origin ∷ js) ≤ 1
unfolding count
count_entered k origin js n le = elim (Bool-cases (origin_eq origin k)) [
  | inl y ↦
      let zero_then : count k js ≡ 0 =
        subst (λ i. count i js ≡ 0) ((origin_eq_iff origin k).0 y) (count_absent origin js n) in
      rw y (omega (arith, zero_then))
  | inr d ↦ rw d le
]

enter-IsSingle :
    (s : Flights) (origin : OriginKey)
    → IsSingle s
    → IsSingle (with_guard s.guards origin (enter s.in_flight origin))
unfolding enter
enter-IsSingle s origin h = elim (Bool-cases (contains origin s.in_flight)) [
  | inl y ↦ rw y (record { same = h.same; one = h.one })
  | inr n ↦ rw n (record {
    same = ap (λ js. origin ∷ js) h.same;
    one = λ k. count_entered k origin s.in_flight n (h.one k);
  })
]

drop-IsSingle : (s : Flights) (origin : OriginKey) → IsSingle s → IsSingle (drop_flight s origin)
unfolding drop_flight
drop-IsSingle s origin h = record {
  same = ap (remove origin) h.same;
  one = λ k. omega (arith, count-remove k origin s.in_flight, h.one k);
}

Step-IsSingle : {s t : Flights} → Step s t → IsSingle s → IsSingle t
Step-IsSingle (enters s origin) h = enter-IsSingle s origin h
Step-IsSingle (drops s origin g) h = drop-IsSingle s origin h

Reach-IsSingle : {s : Flights} → Reach s → IsSingle s
unfolding count
Reach-IsSingle starts = record { same = refl; one = λ k. omega arith }
Reach-IsSingle (steps r st) = Step-IsSingle st (Reach-IsSingle r)

count_present : (k : OriginKey) (js : List OriginKey) → contains k js ≡ true → 1 ≤ count k js
unfolding count contains
count_present k [] h = absurd (ground (arith, h))
count_present k (i ∷ js) h = ground (arith, h, count_present k js)

entered : (s : Flights) (origin : OriginKey) → contains origin (enter s.in_flight origin).0 ≡ true
unfolding enter contains
entered s origin = elim (Bool-cases (contains origin s.in_flight)) [
  | inl y ↦ rw y y
  | inr n ↦ rw n (ground (arith, origin_eq_iff origin origin))
]

with_guard-in_flight :
    (guards : List OriginKey) (origin : OriginKey) (e : List OriginKey × Turn)
    → (with_guard guards origin e).in_flight ≡ e.0
with_guard-in_flight guards origin (js, follows) = refl
with_guard-in_flight guards origin (js, leads) = refl

-- Whatever tasks entered and left before, once a task has entered for an origin, as a leader or to
-- follow, exactly one task holds the guard of that origin: no two fetch its policy at a time, and no
-- follower waits for nobody.
pub exactly_one_leads :
    {s : Flights} (origin : OriginKey)
    → Reach s
    → count origin (with_guard s.guards origin (enter s.in_flight origin)).guards ≡ 1
exactly_one_leads {s} origin r =
    let after = with_guard s.guards origin (enter s.in_flight origin) in
    let single = Reach-IsSingle (steps r (enters s origin)) in
    let there : contains origin after.in_flight ≡ true =
      ap (contains origin) (with_guard-in_flight s.guards origin (enter s.in_flight origin))
      ∙ entered s origin in
    let least : 1 ≤ count origin after.in_flight = count_present origin after.in_flight there in
    omega (arith, ap (count origin) single.same, single.one origin, least)
