-- ===== src/Shell/Command/Builtins.antt =====
-- The search for programs and the built-in commands of P3/src/exec.c.
use cs214_assignments.Base.{
  ◌⊎◌, ◌≢◌, true, false, List, [], ◌∷◌, ◌++◌, Option, none, some, ◌≡◌, refl, sym, ap, ◌∙◌,
  if◌then◌else◌, Bool-cases, Option-cases, inl, inr,
}
use cs214_assignments.Base.Bytes.{Bytes, codes, str_eq, str_eq_iff}
use cs214_assignments.Shell.Command.{
  Os, success, terminated, is_builtin, has_slash, search_paths, search_in, find_program, Done,
  change_dir, print_dir, which, die, execute_builtin,
}

-- The paths that are tried for a name, in order.
abbrev pub in_paths : Bytes → List Bytes → List Bytes
in_paths name [] = []
in_paths name (p ∷ ps) = (p ++ (b'/' ∷ name)) ∷ in_paths name ps

abbrev pub candidates : Bytes → List Bytes
candidates name = if has_slash name then name ∷ [] else in_paths name search_paths

module _ (os : Os) where
  open os use {State, can_run}

  -- none of the paths can be run
  abbrev pub NoneRuns : State → List Bytes → Type 0
  NoneRuns w [] = Unit
  NoneRuns w (p ∷ ps) = (can_run w p ≡ false) × NoneRuns w ps

  -- The result is the first of the paths that can be run.
  abbrev pub FirstThatRuns : State → List Bytes → Option Bytes → Type 0
  FirstThatRuns w ps none = NoneRuns w ps
  FirstThatRuns w ps (some p) =
      (before : List Bytes) × (after : List Bytes) × (ps ≡ before ++ p ∷ after)
      × NoneRuns w before
      × (can_run w p ≡ true)

  FirstThatRuns-cons :
      (w : State) (p : Bytes) (ps : List Bytes) (r : Option Bytes)
      → can_run w p ≡ false
      → FirstThatRuns w ps r
      → FirstThatRuns w (p ∷ ps) r
  FirstThatRuns-cons w p ps none fails n = (fails, n)
  FirstThatRuns-cons w p ps (some q) fails (before, after, e, n, runs) =
      (p ∷ before, after, ap (◌∷◌ p) e, (fails, n), runs)

  search_in-FirstThatRuns :
      (w : State) (name : Bytes) (ps : List Bytes)
      → FirstThatRuns w (in_paths name ps) (search_in os w name ps)
  unfolding search_in
  search_in-FirstThatRuns w name [] = tt
  search_in-FirstThatRuns w name (p ∷ ps) = elim (Bool-cases (can_run w (p ++ (b'/' ∷ name)))) [
    | inl runs ↦ rw runs ([], in_paths name ps, refl, tt, runs)
    | inr fails ↦
        rw fails
          (FirstThatRuns-cons w _ (in_paths name ps) _ fails (search_in-FirstThatRuns w name ps))
  ]

  -- `find_program` gives the first path that can be run: the name itself where it has a slash, else
  -- the name in one of the three directories; and NULL exactly where none of them can be run.
  pub find_program-FirstThatRuns :
      (w : State) (name : Bytes) → FirstThatRuns w (candidates name) (find_program os w name)
  unfolding find_program
  find_program-FirstThatRuns w name = elim (Bool-cases (has_slash name)) [
    | inr bare ↦ rw bare (search_in-FirstThatRuns w name search_paths)
    | inl path ↦ elim (Bool-cases (can_run w name)) [
      | inl runs ↦ rw (path, runs) ([], [], refl, tt, runs)
      | inr fails ↦ rw (path, fails) (fails, tt)
    ]
  ]

  -- What a built-in command may do: -1 is the result of `die` alone, and the system changes by `cd`
  -- alone and only where that succeeds.
  pub record Restrained (w : State) (cmd : Bytes) (done : Done os) : Type 0 where
    pub only_die : done.0 ≡ terminated → cmd ≡ codes "die"
    pub die_ends : cmd ≡ codes "die" → done.0 ≡ terminated
    pub only_cd : (done.1 ≡ w) ⊎ ((cmd ≡ codes "cd") × (done.0 ≡ success))

  change_dir_lem :
      (w : State) (argv : List Bytes)
      → let done = change_dir os w argv in
        (done.0 ≢ terminated) × ((done.1 ≡ w) ⊎ (done.0 ≡ success))
  unfolding change_dir
  change_dir_lem w [] = (λ e. cc, inl refl)
  change_dir_lem w (cmd ∷ []) = (λ e. cc, inl refl)
  change_dir_lem w (cmd ∷ dir ∷ []) = elim (Option-cases (os.chdir w dir)) [
    | inl e ↦ rw (e, change_dir) (λ f. cc, inl refl)
    | inr (w', e) ↦ rw (e, change_dir) (λ f. cc, inr refl)
  ]
  change_dir_lem w (cmd ∷ dir ∷ more ∷ rest) = (λ e. cc, inl refl)

  print_dir_lem :
      (w : State) (argv : List Bytes)
      → let done = print_dir os w argv in (done.0 ≢ terminated) × (done.1 ≡ w)
  unfolding print_dir
  print_dir_lem w [] = (λ e. cc, refl)
  print_dir_lem w (cmd ∷ []) = elim (Option-cases (os.getcwd w)) [
    | inl e ↦ rw (e, print_dir) (λ f. cc, refl)
    | inr (dir, e) ↦ rw (e, print_dir) (λ f. cc, refl)
  ]
  print_dir_lem w (cmd ∷ arg ∷ rest) = (λ e. cc, refl)

  which_lem :
      (w : State) (argv : List Bytes)
      → let done = which os w argv in (done.0 ≢ terminated) × (done.1 ≡ w)
  unfolding which
  which_lem w [] = (λ e. cc, refl)
  which_lem w (cmd ∷ []) = (λ e. cc, refl)
  which_lem w (cmd ∷ name ∷ []) = elim (Bool-cases (is_builtin name)) [
    | inl b ↦ rw (b, which) (λ e. cc, refl)
    | inr b ↦ elim (Option-cases (find_program os w name)) [
      | inl e ↦ rw (b, e, which) (λ f. cc, refl)
      | inr (path, e) ↦ rw (b, e, which) (λ f. cc, refl)
    ]
  ]
  which_lem w (cmd ∷ name ∷ more ∷ rest) = (λ e. cc, refl)

  die_lem :
      (w : State) (argv : List Bytes)
      → let done = die os w argv in (done.0 ≡ terminated) × (done.1 ≡ w)
  unfolding die
  die_lem w [] = (refl, refl)
  die_lem w (cmd ∷ []) = (refl, refl)
  die_lem w (cmd ∷ a ∷ as') = (refl, refl)

  -- a command that is not `die` and leaves the system alone
  quiet-Restrained :
      (w : State) (cmd : Bytes) (done : Done os)
      → cmd ≢ codes "die"
      → (done.0 ≢ terminated) × (done.1 ≡ w)
      → Restrained w cmd done
  quiet-Restrained w cmd done other (on, same) = record {
    only_die = λ e. absurd (on e);
    die_ends = λ e. absurd (other e);
    only_cd = inl same;
  }

  no_die :
      (cmd name : Bytes)
      → str_eq cmd name ≡ true
      → str_eq name (codes "die") ≡ false
      → cmd ≢ codes "die"
  no_die cmd name is other e =
      let named = (str_eq_iff cmd name).0 is in
      let same = (str_eq_iff name (codes "die")).1 (sym named ∙ e) in cc

  not_die : (cmd : Bytes) → str_eq cmd (codes "die") ≡ false → cmd ≢ codes "die"
  not_die cmd other e = let same = (str_eq_iff cmd (codes "die")).1 e in cc

  -- Among the built-in commands `die` alone gives -1, whatever its arguments, and `cd` alone changes
  -- the system, and only where it succeeds; that `exit` ends the shell is up to `shell_loop`.
  pub execute_builtin-Restrained :
      (w : State) (cmd : Bytes) (argv : List Bytes)
      → Restrained w cmd (execute_builtin os w cmd argv)
  unfolding execute_builtin str_eq
  execute_builtin-Restrained w cmd argv = elim (Bool-cases (str_eq cmd (codes "cd"))) [
    | inl cd ↦
        let (on, what) = change_dir_lem w argv in
        rw cd (record {
          only_die = λ e. absurd (on e);
          die_ends = λ e. absurd (no_die cmd (codes "cd") cd refl e);
          only_cd = elim what [
            | inl same ↦ inl same
            | inr done ↦ inr ((str_eq_iff cmd (codes "cd")).0 cd, done)
          ];
        })
    | inr a ↦ elim (Bool-cases (str_eq cmd (codes "pwd"))) [
      | inl pwd ↦
          rw (a, pwd)
            (quiet-Restrained w cmd _ (no_die cmd (codes "pwd") pwd refl) (print_dir_lem w argv))
      | inr b ↦ elim (Bool-cases (str_eq cmd (codes "which"))) [
        | inl which_is ↦
            rw (a, b, which_is)
              (quiet-Restrained w cmd _ (no_die cmd (codes "which") which_is refl)
                (which_lem w argv))
        | inr c ↦ elim (Bool-cases (str_eq cmd (codes "exit"))) [
          | inl exit ↦
              rw (a, b, c, exit)
                (quiet-Restrained w cmd _ (no_die cmd (codes "exit") exit refl) (λ e. cc, refl))
          | inr d ↦ elim (Bool-cases (str_eq cmd (codes "die"))) [
            | inr unknown ↦
                rw (a, b, c, d, unknown)
                  (quiet-Restrained w cmd _ (not_die cmd unknown) (λ e. cc, refl))
            | inl die_is ↦
                let (ends, same) = die_lem w argv in
                rw (a, b, c, d, die_is)
                  (record {
                    only_die = λ e. (str_eq_iff cmd (codes "die")).0 die_is;
                    die_ends = λ e. ends;
                    only_cd = inl same;
                  })
          ]
        ]
      ]
    ]
  ]
