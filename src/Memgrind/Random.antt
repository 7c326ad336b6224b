-- ===== src/Memgrind/Random.antt =====
-- The array of `task3` of P1/memgrind.c, and the loops over it.
use cs214_assignments.Base.{
  ℕ, zero, suc, ◌+◌, ◌%◌, ◌≤◌, ◌<◌, ◌≢◌, false, List, [], ◌∷◌, ◌++◌, ◌≡◌, refl, sym, ap, ◌∙◌, subst,
  arith, Bool-cases, inl, inr, ◌==◌, if◌then◌else◌, length, length-append, get_or, set,
}
use mathlib.Core.List.{append_assoc}
use cs214_assignments.Memgrind.{
  World, ok, checked, malloc, free, fill_first, free_first, free_slots,
}
use cs214_assignments.Memgrind.Owned.{Owns, free-Shrank}
use cs214_assignments.Memgrind.Tasks.{bind_ok, checked_lem, Returns, malloc_one}

-- the objects in the array
abbrev pub live : List ℕ → List ℕ
live [] = []
live (p ∷ ps) = let rest = live ps in if p == 0 then rest else p ∷ rest

length-live-le : (ps : List ℕ) → length (live ps) ≤ length ps
length-live-le [] = omega arith
length-live-le (p ∷ ps) = ground (arith, length-live-le ps)

live-nonzero : (p : ℕ) (ps : List ℕ) → p ≢ 0 → live (p ∷ ps) ≡ p ∷ live ps
live-nonzero p ps ne = ground arith

live_object : (p : ℕ) (ps : List ℕ) → (p == 0) ≡ false → live (p ∷ ps) ≡ p ∷ live ps
live_object p ps ne = rw ne refl

-- A slot that holds an object, and the array without it.
record Slot (ptrs : List ℕ) (i : ℕ) : Type 0 where
  before : List ℕ
  after : List ℕ
  splits : live ptrs ≡ before ++ get_or ptrs i 0 ∷ after
  cleared : live (set ptrs i 0) ≡ before ++ after
  same_length : length (set ptrs i 0) ≡ length ptrs

slot : (ptrs : List ℕ) (i : ℕ) → (get_or ptrs i 0 == 0) ≡ false → Slot ptrs i
slot [] i ne = absurd (cc)
slot (p ∷ ps) zero ne = record {
  before = [];
  after = live ps;
  splits = rw ne refl;
  cleared = refl;
  same_length = refl;
}
slot (p ∷ ps) (suc i) ne =
    let s = slot ps i ne in
    elim (Bool-cases (p == 0)) [
      | inl null ↦ record {
        before = s.before;
        after = s.after;
        splits = rw null s.splits;
        cleared = rw null s.cleared;
        same_length = ap suc s.same_length;
      }
      | inr object ↦ record {
        before = p ∷ s.before;
        after = s.after;
        splits = rw object (ap (◌∷◌ p) s.splits);
        cleared = rw object (ap (◌∷◌ p) s.cleared);
        same_length = ap suc s.same_length;
      }
    ]

module _ (base : ℕ) (pos : 0 < base) (align : base % 8 ≡ 0) where
  -- The array with one object more in its first empty slot, if it has one.
  pub record Grown (front ptrs : List ℕ) (w : World) : Type 0 where
    pub slots : List ℕ
    pub count : ℕ
    pub world : World
    pub returns : fill_first base ptrs w ≡ ok (slots, count) world
    pub owns : Owns base 16 world (front ++ live slots)
    pub same_length : length slots ≡ length ptrs
    pub counted : length (live slots) ≡ length (live ptrs) + count
    pub one_more : length (live ptrs) < length ptrs → count ≡ 1
    pub drawn_is : world.drawn ≡ w.drawn

  pub fill_first-Grown :
      (ptrs front : List ℕ) (w : World)
      → length (front ++ live ptrs) < 120
      → Owns base 16 w (front ++ live ptrs)
      → Grown front ptrs w
  unfolding fill_first
  fill_first-Grown [] front w few o = record {
    slots = [];
    count = 0;
    world = w;
    returns = refl;
    owns = o;
    same_length = refl;
    counted = refl;
    one_more = λ h. absurd (omega arith);
    drawn_is = refl;
  }
  fill_first-Grown (p ∷ ps) front w few o = elim (Bool-cases (p == 0)) [
    | inl null ↦
        let g = malloc_one base pos align w front (live ps) 66 (rw null at few) (rw null at o) in
        let k = live-nonzero g.pointer ps g.nonzero in
        record {
          slots = g.pointer ∷ ps;
          count = 1;
          world = g.world;
          returns =
              rw (fill_first, null)
                (bind_ok (malloc base 66 1) _ w g.world g.pointer g.returns
                  ∙ bind_ok (checked base g.pointer) _ g.world g.world g.pointer
                      (checked_lem base g.pointer g.world g.nonzero));
          owns = rw k g.owns;
          same_length = refl;
          counted = rw (k, null) (omega arith);
          one_more = λ h. refl;
          drawn_is = g.drawn_is;
        }
    | inr object ↦
        let k : front ++ live (p ∷ ps) ≡ (front ++ p ∷ []) ++ live ps =
          rw object (sym (append_assoc front (p ∷ []) (live ps))) in
        let r =
          fill_first-Grown ps (front ++ p ∷ []) w (subst (λ l. length l < 120) k few)
            (subst (Owns base 16 w) k o) in
        record {
          slots = p ∷ r.slots;
          count = r.count;
          world = r.world;
          returns =
              rw (fill_first, object)
                (bind_ok (fill_first base ps) _ w r.world (r.slots, r.count) r.returns);
          owns =
              subst (Owns base 16 r.world)
                (append_assoc front (p ∷ []) (live r.slots) ∙ rw object refl) r.owns;
          same_length = ap suc r.same_length;
          counted = omega (
            arith,
            r.counted,
            ap length (live_object p r.slots object),
            ap length (live_object p ps object),
          );
          one_more = λ h. r.one_more (ground arith);
          drawn_is = r.drawn_is;
        }
  ]

  -- The array with an object less, if one was found.
  pub record Emptied (n idx : ℕ) (ptrs : List ℕ) (w : World) : Type 0 where
    pub slots : List ℕ
    pub count : ℕ
    pub world : World
    pub returns : free_first base n idx ptrs w ≡ ok (slots, count) world
    pub owns : Owns base 16 world (live slots)
    pub same_length : length slots ≡ length ptrs
    pub counted : length (live slots) + count ≡ length (live ptrs)
    pub drawn_is : world.drawn ≡ w.drawn

  pub free_first-Emptied :
      (n idx : ℕ) (ptrs : List ℕ) (w : World) → Owns base 16 w (live ptrs) → Emptied n idx ptrs w
  unfolding free_first
  free_first-Emptied zero idx ptrs w o = record {
    slots = ptrs;
    count = 0;
    world = w;
    returns = refl;
    owns = o;
    same_length = refl;
    counted = omega arith;
    drawn_is = refl;
  }
  free_first-Emptied (suc n) idx ptrs w o =
      let i = idx % 120 in
      elim (Bool-cases (get_or ptrs i 0 == 0)) [
        | inl null ↦
            let r = free_first-Emptied n (idx + 1) ptrs w o in
            record {
              slots = r.slots;
              count = r.count;
              world = r.world;
              returns = rw (free_first, null) r.returns;
              owns = r.owns;
              same_length = r.same_length;
              counted = r.counted;
              drawn_is = r.drawn_is;
            }
        | inr object ↦
            let t = slot ptrs i object in
            let p = get_or ptrs i 0 in
            let s =
              free-Shrank base 16 w t.before t.after 84 p align
                (subst (Owns base 16 w) t.splits o) in
            record {
              slots = set ptrs i 0;
              count = 1;
              world = s.world;
              returns = rw (free_first, object) (bind_ok (free base 84 p) _ w s.world tt s.returns);
              owns = subst (Owns base 16 s.world) (sym t.cleared) s.owns;
              same_length = t.same_length;
              counted =
                  rw (t.cleared, t.splits)
                    (omega (
                      arith,
                      length-append t.before t.after,
                      length-append t.before (p ∷ t.after),
                    ));
              drawn_is = s.drawn_is;
            }
      ]

  pub free_slots-Returns :
      (ps : List ℕ) (w : World) → Owns base 16 w (live ps) → Returns base (free_slots base ps) w
  unfolding free_slots
  free_slots-Returns [] w o = record { world = w; returns = refl; owns = o }
  free_slots-Returns (p ∷ ps) w o = elim (Bool-cases (p == 0)) [
    | inl null ↦
        let r = free_slots-Returns ps w (rw null at o) in
        record { world = r.world; returns = rw (free_slots, null) r.returns; owns = r.owns }
    | inr object ↦
        let s = free-Shrank base 16 w [] (live ps) 97 p align (rw object at o) in
        let r = free_slots-Returns ps s.world s.owns in
        record {
          world = r.world;
          returns =
              rw (free_slots, object)
                (bind_ok (free base 97 p) _ w s.world tt s.returns ∙ r.returns);
          owns = r.owns;
        }
  ]
