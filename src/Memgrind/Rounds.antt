-- ===== src/Memgrind/Rounds.antt =====
-- The rounds of `task3` of P1/memgrind.c.
use cs214_assignments.Base.{
  ℕ, zero, suc, ◌+◌, ◌-◌, ◌*◌, ◌%◌, ◌≤◌, ◌<◌, true, List, [], ◌≡◌, refl, ap, ◌∙◌, arith, Bool-cases,
  inl, inr, ltb, ◌==◌, length, replicate, ltb→lt, ==_iff,
}
use cs214_assignments.Memgrind.{
  World, ok, Slots, fill_first, free_first, grow, shrink, draw, task3_round, task3_loop, task3,
}
use cs214_assignments.Memgrind.Owned.{Owns}
use cs214_assignments.Memgrind.Tasks.{bind_ok, Returns}
use cs214_assignments.Memgrind.Random.{
  live, fill_first-Grown, free_first-Emptied, free_slots-Returns,
}

less_work : (t u d : ℕ) → t < 120 → u ≡ t + 1 → (120 - t) * (d + 1) ≡ (120 - u) * (d + 1) + (d + 1)
less_work t u d h e = let k : 120 - t ≡ 120 - u + 1 = omega arith in rw k (grind arith)

no_more_work : (t u d : ℕ) → t ≤ u → (120 - u) * (d + 1) ≤ (120 - t) * (d + 1)
no_more_work t u d h = grind arith

-- Somewhere in any `d` numbers in a row that `rand` returns begin two even ones in a row.
abbrev pub Fair : (ℕ → ℕ) → ℕ → Type 0
Fair rand d = (i : ℕ) → (k : ℕ) × (i ≤ k) × (k < i + d) × (rand k % 2 ≡ 0) × (rand (k + 1) % 2 ≡ 0)

module _ (base : ℕ) (pos : 0 < base) (align : base % 8 ≡ 0) where
  -- The variables of `task3` are consistent with the heap.
  record Consistent (s : Slots) (w : World) : Type 0 where
    owns : Owns base 16 w (live s.ptrs)
    count_is : s.allocated ≡ length (live s.ptrs)
    long : length s.ptrs ≡ 120
    fewer : s.allocated ≤ s.total

  module _ (rand : ℕ → ℕ) where
    -- A round of the `while`: an even choice allocates.
    record Round (s : Slots) (w : World) : Type 0 where
      slots : Slots
      world : World
      returns : task3_round base rand s w ≡ ok slots world
      consistent : Consistent slots world
      draws : (w.drawn < world.drawn) × (world.drawn ≤ w.drawn + 2)
      even : rand w.drawn % 2 ≡ 0 → (slots.total ≡ s.total + 1) × (world.drawn ≡ w.drawn + 1)
      not_less : (s.total ≤ slots.total) × (slots.total ≤ s.total + 1)

    next : World → World
    next w = record w { drawn = w.drawn + 1 }

    next-Owns : (w : World) (ps : List ℕ) → Owns base 16 w ps → Owns base 16 (next w) ps
    unfolding next
    next-Owns w ps o = record {
      chunks = o.chunks;
      represents = o.represents;
      in_use = o.in_use;
      picks = o.picks;
      small = o.small;
      quiet = o.quiet;
    }

    round_lem : (s : Slots) (w : World) → s.total < 120 → Consistent s w → Round s w
    unfolding task3_round draw next grow shrink
    round_lem s w few c = elim (Bool-cases (rand w.drawn % 2 == 0)) [
      | inl even ↦
          let room : ltb s.allocated 120 ≡ true = ground (arith, c.fewer) in
          let r =
            fill_first-Grown base pos align s.ptrs [] (next w) (omega (arith, c.fewer, c.count_is))
              (next-Owns w (live s.ptrs) c.owns) in
          let one = r.one_more (omega (arith, c.fewer, c.count_is, c.long)) in
          record {
            slots = record {
              ptrs = r.slots;
              allocated = s.allocated + r.count;
              total = s.total + r.count;
            };
            world = r.world;
            returns =
                rw (even, room)
                  (bind_ok (fill_first base s.ptrs) _ (next w) r.world (r.slots, r.count)
                    r.returns);
            consistent = record {
              owns = r.owns;
              count_is = omega (arith, c.count_is, r.counted);
              long = r.same_length ∙ c.long;
              fewer = omega (arith, c.fewer);
            };
            draws = omega (arith, r.drawn_is);
            even = λ _. omega (arith, r.drawn_is, one);
            not_less = omega (arith, one);
          }
      | inr odd ↦ elim (Bool-cases (ltb 0 s.allocated)) [
        | inl some_objects ↦
            let start = rand (next w).drawn % 120 in
            let w2 = next (next w) in
            let r =
              free_first-Emptied base pos align 120 start s.ptrs w2
                (next-Owns (next w) (live s.ptrs) (next-Owns w (live s.ptrs) c.owns)) in
            record {
              slots = record { ptrs = r.slots; allocated = s.allocated - r.count; total = s.total };
              world = r.world;
              returns =
                  rw (odd, some_objects)
                    (bind_ok (free_first base 120 start s.ptrs) _ w2 r.world (r.slots, r.count)
                      r.returns);
              consistent = record {
                owns = r.owns;
                count_is = omega (arith, c.count_is, r.counted);
                long = r.same_length ∙ c.long;
                fewer = omega (arith, c.fewer);
              };
              draws = omega (arith, r.drawn_is);
              even = λ e. absurd (ground arith);
              not_less = omega arith;
            }
        | inr none_left ↦ record {
          slots = s;
          world = next w;
          returns = rw (odd, none_left) refl;
          consistent = record {
            owns = next-Owns w (live s.ptrs) c.owns;
            count_is = c.count_is;
            long = c.long;
            fewer = c.fewer;
          };
          draws = omega arith;
          even = λ e. absurd (ground arith);
          not_less = omega arith;
        }
      ]
    ]

    -- The loop ends: `k` and `k + 1` are where the next two even numbers stand.
    record Looped (f : ℕ) (s : Slots) (w : World) : Type 0 where
      slots : Slots
      world : World
      returns : task3_loop base rand f s w ≡ ok slots world
      owns : Owns base 16 world (live slots.ptrs)

    task3_loop-Looped :
        (d : ℕ) (fair : Fair rand d) (f : ℕ) (s : Slots) (w : World) (k : ℕ)
        → rand k % 2 ≡ 0
        → rand (k + 1) % 2 ≡ 0
        → w.drawn ≤ k + 1
        → (k + 2 - w.drawn) + (120 - s.total) * (d + 1) < f
        → Consistent s w
        → Looped f s w
    unfolding task3_loop
    task3_loop-Looped d fair zero s w k e0 e1 near enough c = absurd (omega arith)
    task3_loop-Looped d fair (suc f) s w k e0 e1 near enough c =
        elim (Bool-cases (ltb s.total 120)) [
          | inr over ↦ record {
            slots = s;
            world = w;
            returns = rw (over, task3_loop) refl;
            owns = c.owns;
          }
          | inl more ↦
              let few : s.total < 120 = ltb→lt s.total 120 more in
              let r = round_lem s w few c in
              let l : Looped f r.slots r.world = elim (Bool-cases (w.drawn == k + 1)) [
                | inl last ↦
                    let (k', lo, hi, e0', e1') = fair (k + 2) in
                    let at : w.drawn ≡ k + 1 = ground arith in
                    let step = r.even (ap (λ i. rand i % 2) at ∙ e1) in
                    task3_loop-Looped d fair f r.slots r.world k' e0' e1' (omega (arith, step))
                      (omega (arith, step, less_work s.total r.slots.total d few step.0))
                      r.consistent
                | inr before ↦
                    task3_loop-Looped d fair f r.slots r.world k e0 e1
                      (elim (Bool-cases (w.drawn == k)) [
                        | inl at ↦ omega (
                          arith,
                          r.even (ap (λ i. rand i % 2) ((==_iff w.drawn k).0 at) ∙ e0),
                          (==_iff w.drawn k).0 at,
                        )
                        | inr apart ↦ ground (arith, r.draws)
                      ])
                      (omega (arith, r.draws, no_more_work s.total r.slots.total d r.not_less.0))
                      r.consistent
              ] in
              record {
                slots = l.slots;
                world = l.world;
                returns =
                    rw (more, task3_loop)
                      (bind_ok (task3_round base rand s) _ w r.world r.slots r.returns ∙ l.returns);
                owns = l.owns;
              }
        ]

    pub task3-Returns :
        (d : ℕ) (fair : Fair rand d) (fuel : ℕ)
        → 121 * (d + 1) < fuel
        → (w : World) → Owns base 16 w []
        → Returns base (task3 base rand fuel) w
    unfolding task3
    task3-Returns d fair fuel enough w o =
        let start : Slots = record { ptrs = replicate 120 0; allocated = 0; total = 0 } in
        let (k, lo, hi, e0, e1) = fair w.drawn in
        let c : Consistent start w = record {
          owns = o;
          count_is = refl;
          long = refl;
          fewer = omega arith;
        } in
        let l = task3_loop-Looped d fair fuel start w k e0 e1 (omega arith) (omega arith) c in
        let r = free_slots-Returns base pos align l.slots.ptrs l.world l.owns in
        record {
          world = r.world;
          returns =
              bind_ok (task3_loop base rand fuel start) _ w l.world l.slots l.returns ∙ r.returns;
          owns = r.owns;
        }
