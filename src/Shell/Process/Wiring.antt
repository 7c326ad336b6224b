-- ===== src/Shell/Process/Wiring.antt =====
-- How the children of a job of P3/src/exec.c are connected.
use cs214_assignments.Base.{
  ℕ, zero, suc, ◌+◌, ◌-◌, ◌<◌, ◌≤◌, ◌≡◌, ◌≢◌, sym, ap, ◌∙◌, Bool, true, false, not, ◌&&◌, ◌||◌,
  List, Option, none, some, ltb, ◌==◌, if◌then◌else◌, arith, get_or, Bool-cases, inl, inr,
}
use cs214_assignments.Base.Bytes.{Bytes, codes}
use cs214_assignments.Shell.Parse.{Segment}
use cs214_assignments.Shell.Descriptors.{
  Opened, null_device, reads, writes, read_end, write_end, FdTable, open_at, dup2, redirect,
}
use cs214_assignments.Shell.Descriptors.Lookup.{
  open_at-redirect, open_at-dup2, is_end, open_at-close_all,
}
use cs214_assignments.Shell.Command.{Os}
use cs214_assignments.Shell.Process.{from_null, from_file, to_file, redirected, connect_pipes}
use cs214_assignments.Shell.Process.Pipes.{Piped, not_end}

-- What the first segment reads and the last one writes, in place of what stands there.
abbrev pub source : Bool → Bool → Option Bytes → Option Opened → Option Opened
source false is_interactive input old = old
source true true none old = old
source true false none old = some null_device
source true is_interactive (some name) old = some (reads name)

abbrev pub target : Bool → Option Bytes → Option Opened → Option Opened
target false output old = old
target true none old = old
target true (some name) old = some (writes name)

-- The table with what the two give, and everything else as in `fds`.
pub record Redirected (fds : FdTable) (input output : Option Opened) (fds' : FdTable) : Type 0 where
  pub input_is : open_at fds' 0 ≡ input
  pub output_is : open_at fds' 1 ≡ output
  pub others : (k : ℕ) → 2 ≤ k → open_at fds' k ≡ open_at fds k

abbrev pub in_table : Bool → Bool → Option Bytes → FdTable → FdTable
in_table false is_interactive input fds = fds
in_table true true none fds = fds
in_table true false none fds = redirect fds 0 null_device
in_table true is_interactive (some name) fds = redirect fds 0 (reads name)

abbrev pub out_table : Bool → Option Bytes → FdTable → FdTable
out_table false output fds = fds
out_table true none fds = fds
out_table true (some name) fds = redirect fds 1 (writes name)

module _ (f : Opened) (fds : FdTable) (k : ℕ) where
  in_table_lem :
      (first is_interactive : Bool) (input : Option Bytes)
      → open_at fds 0 ≡ some f
      → open_at (in_table first is_interactive input fds) k
        ≡ (if k == 0 then source first is_interactive input (open_at fds 0) else open_at fds k)
  in_table_lem false is_interactive input e = ground arith
  in_table_lem true true none e = ground arith
  in_table_lem true false none e = open_at-redirect fds 0 null_device f k e
  in_table_lem true true (some name) e = open_at-redirect fds 0 (reads name) f k e
  in_table_lem true false (some name) e = open_at-redirect fds 0 (reads name) f k e

  out_table_lem :
      (last : Bool) (output : Option Bytes)
      → open_at fds 1 ≡ some f
      → open_at (out_table last output fds) k
        ≡ (if k == 1 then target last output (open_at fds 1) else open_at fds k)
  out_table_lem false output e = ground arith
  out_table_lem true none e = ground arith
  out_table_lem true (some name) e = open_at-redirect fds 1 (writes name) f k e

module _ (os : Os) where
  open os use {State, can_open, can_create}

  -- whether the files can be opened that a child needs
  abbrev pub opens_input : State → Bool → Bool → Segment → Bool
  opens_input w first is_interactive seg = not first || elim seg.input_file [
    | none ↦ is_interactive || can_open w (codes "/dev/null")
    | some name ↦ can_open w name
  ]

  abbrev pub opens_output : State → Bool → Segment → Bool
  opens_output w last seg =
      not last || elim seg.output_file [ none ↦ true | some name ↦ can_create w name ]

  module _ (w : State) (seg : Segment) (fds : FdTable) where
    pub redirected_lem :
        (first last is_interactive : Bool)
        → redirected os w first last is_interactive seg fds ≡ (
            if opens_input w first is_interactive seg && opens_output w last seg
            then some
                (out_table last seg.output_file (in_table first is_interactive seg.input_file fds))
            else none)
    unfolding from_null from_file to_file
    redirected_lem first last is_interactive = ground arith

pub tables-Redirected :
    (f g : Opened) (fds : FdTable) (first last is_interactive : Bool) (input output : Option Bytes)
    → open_at fds 0 ≡ some f
    → open_at fds 1 ≡ some g
    → Redirected fds
        (source first is_interactive input (open_at fds 0))
        (target last output (open_at fds 1))
        (out_table last output (in_table first is_interactive input fds))
tables-Redirected f g fds first last is_interactive input output e0 e1 =
    let fds1 = in_table first is_interactive input fds in
    let one = in_table_lem f fds 1 first is_interactive input e0 in
    record {
      input_is =
          out_table_lem g fds1 0 last output (one ∙ e1)
          ∙ in_table_lem f fds 0 first is_interactive input e0;
      output_is = out_table_lem g fds1 1 last output (one ∙ e1) ∙ ap (target last output) one;
      others = λ k le.
          let a = out_table_lem g fds1 k last output (one ∙ e1) in
          let b = in_table_lem f fds k first is_interactive input e0 in ground (arith, a, b, le);
    }

-- the ends of the pipes next to child `i`
abbrev pub before : ℕ → Option Opened → Option Opened
before zero old = old
before (suc i) old = some (read_end i)

abbrev pub after : ℕ → ℕ → Option Opened → Option Opened
after i count old = if ltb i (count - 1) then some (write_end i) else old

module _ (os : Os) (f g : Opened) (fds : FdTable) (count : ℕ) (ps : List (ℕ × ℕ)) (made : FdTable)
    (m : Piped fds 0 (count - 1) ps made) (e0 : open_at fds 0 ≡ some f)
    (e1 : open_at fds 1 ≡ some g) where
  first_dup :
      (i : ℕ)
      → i < count
      → (k : ℕ)
      → open_at (if ltb 0 i then dup2 made (get_or ps (i - 1) (0, 0)).0 0 else made) k
        ≡ (if k == 0 then before i (open_at made 0) else open_at made k)
  first_dup zero h k = ground arith
  first_dup (suc i) h k =
      let (r, _, _, _) = m.ends i (omega arith) in
      let positive : ltb 0 (suc i) ≡ true = ground arith in
      let one_less : suc i - 1 ≡ i = omega arith in
      let number : 0 + i ≡ i = omega arith in
      rw (positive, one_less)
        (open_at-dup2 made (get_or ps i (0, 0)).0 0 (read_end i) k
          (r ∙ ap (λ (j : ℕ). some (read_end j)) number))

  second_dup :
      (i : ℕ) (t : FdTable)
      → i < count
      → ((k : ℕ) → open_at t k ≡ (if k == 0 then before i (open_at made 0) else open_at made k))
      → (k : ℕ)
      → open_at (if ltb i (count - 1) then dup2 t (get_or ps i (0, 0)).1 1 else t) k
        ≡ (if k == 1 then after i count (open_at made 1) else open_at t k)
  second_dup i t h is_t k = elim (Bool-cases (ltb i (count - 1))) [
    | inr last ↦ rw last (ground (arith, is_t 1))
    | inl more ↦
        let (_, w, _, mine) = m.ends i (ground (arith, more)) in
        let not_zero = not_end fds 0 (count - 1) ps made 0 f m e0 in
        let number : 0 + i ≡ i = omega arith in
        let not_input : (get_or ps i (0, 0)).1 ≢ 0 =
          λ e. let clash : true ≡ false = sym mine ∙ ap (is_end ps) e ∙ not_zero in cc in
        let there : open_at t (get_or ps i (0, 0)).1 ≡ some (write_end i) =
          is_t (get_or ps i (0, 0)).1
          ∙ ground (arith, not_input)
          ∙ w
          ∙ ap (λ (j : ℕ). some (write_end j)) number in
        rw more (open_at-dup2 t (get_or ps i (0, 0)).1 1 (write_end i) k there)
  ]

  pub connect_lem :
      (i : ℕ)
      → i < count
      → Redirected fds
          (before i (open_at fds 0))
          (after i count (open_at fds 1))
          (connect_pipes os i count ps made)
  unfolding connect_pipes
  connect_lem i h =
      let t1 = if ltb 0 i then dup2 made (get_or ps (i - 1) (0, 0)).0 0 else made in
      let t2 = if ltb i (count - 1) then dup2 t1 (get_or ps i (0, 0)).1 1 else t1 in
      let one = first_dup i h in
      let two = second_dup i t1 h one in
      let end0 = not_end fds 0 (count - 1) ps made 0 f m e0 in
      let end1 = not_end fds 0 (count - 1) ps made 1 g m e1 in
      record {
        input_is =
            open_at-close_all ps t2 0
            ∙ ground (arith, end0)
            ∙ two 0
            ∙ one 0
            ∙ ap (before i) (m.same 0 end0);
        output_is =
            open_at-close_all ps t2 1
            ∙ ground (arith, end1)
            ∙ two 1
            ∙ ap (after i count) (m.same 1 end1);
        others = λ k le. open_at-close_all ps t2 k ∙ elim (Bool-cases (is_end ps k)) [
          | inl e ↦ rw e (sym (m.free k e))
          | inr e ↦ rw e (two k ∙ ground (arith, le, one k, m.same k e))
        ];
      }
