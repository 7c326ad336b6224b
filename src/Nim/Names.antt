-- ===== src/Nim/Names.antt =====
-- The register of names of P4/clients/src/nimd.c (`register_name`, `remove_name`) and the opening of
-- a connection in `handle_client`, up to the reply.
use cs214_assignments.Base.{
  ℕ, zero, suc, ◌≤◌, ◌+◌, ◌-◌, ◌⊎◌, ◌≢◌, Bool, true, false, not, ◌↔◌, ◌∙◌, ◌||◌, List, [], ◌∷◌,
  Option, none, some, ◌≡◌, refl, ap, arith, ltb, if◌then◌else◌, length, take, Bool-cases, inl, inr,
}
use cs214_assignments.Base.Bytes.{Bytes, codes, str_eq, str_eq_iff}
use cs214_assignments.Nim.Frame.{Received, closed, invalid, message, name_limit}

-- the loop of `register_name`: the name is in the list
unfoldable pub is_registered : List Bytes → Bytes → Bool
is_registered [] name = false
is_registered (n ∷ ns) name = str_eq n name || is_registered ns name

-- `none` for -1; `strncpy` cuts the copy of the name
unfoldable pub register_name : List Bytes → Bytes → Option (List Bytes)
register_name names name =
    if is_registered names name then none else some (take name_limit name ∷ names)

pub remove_name : List Bytes → Bytes → List Bytes
remove_name [] name = []
remove_name (n ∷ ns) name = let rest = n ∷ remove_name ns name in if str_eq n name then ns else rest

-- What `handle_client` answers to the first message: nothing, an error, or `WAIT`; it closes the
-- socket unless it answers `WAIT`.
pub data Answer : Type 0 where
  hang_up : Answer
  refused : ℕ → Answer
  wait : Bytes → Answer

unfoldable pub open_client : List Bytes → Received → Answer × List Bytes
open_client names closed = (hang_up, names)
open_client names (invalid code) = (refused code, names)
open_client names (message type name) =
    if not (str_eq type (codes "OPEN"))
    then (refused 10, names)
    else if ltb name_limit (length name)
    then (refused 21, names)
    else elim (register_name names name) [
      | none ↦ (refused 22, names)
      | some names' ↦ (wait name, names')
    ]

-- No name is registered twice.
abbrev pub Distinct : List Bytes → Type 0
Distinct [] = Unit
Distinct (n ∷ ns) = (is_registered ns n ≡ false) × Distinct ns

take-short : (xs : Bytes) (n : ℕ) → length xs ≤ n → take n xs ≡ xs
take-short [] zero h = refl
take-short [] (suc n) h = refl
take-short (x ∷ xs) zero h = absurd (omega arith)
take-short (x ∷ xs) (suc n) h = ap (◌∷◌ x) (take-short xs n (omega arith))

is_registered-remove_name :
    (names : List Bytes) (a b : Bytes)
    → is_registered names b ≡ false
    → is_registered (remove_name names a) b ≡ false
unfolding is_registered remove_name
is_registered-remove_name [] a b h = refl
is_registered-remove_name (n ∷ ns) a b h = ground (arith, is_registered-remove_name ns a b)

-- Of a register of distinct names `remove_name` takes the name away, keeps all others, and keeps
-- the names distinct.
pub remove_name_lem :
    (names : List Bytes) (a : Bytes)
    → Distinct names
    → Distinct (remove_name names a)
      × (is_registered (remove_name names a) a ≡ false)
      × ((b : Bytes) → a ≢ b → is_registered (remove_name names a) b ≡ is_registered names b)
unfolding is_registered remove_name
remove_name_lem [] a d = (tt, refl, λ b ne. refl)
remove_name_lem (n ∷ ns) a (fresh, d) =
    let (e, gone, others) = remove_name_lem ns a d in
    elim (Bool-cases (str_eq n a)) [
      | inl same ↦
          let is : n ≡ a = (str_eq_iff n a).0 same in
          rw same (d, rw is at fresh, λ b ne. ground (arith, str_eq_iff n b))
      | inr differs ↦
          rw differs
            ((is_registered-remove_name ns a n fresh, e), rw differs gone, λ b ne. rw (others b ne))
    ]

pub remove_name-both : (a b : Bytes) → a ≢ b → remove_name (remove_name (b ∷ a ∷ []) a) b ≡ []
unfolding remove_name
remove_name-both a b ne =
    ground (arith, str_eq_iff b a, str_eq_iff a b, str_eq_iff a a, str_eq_iff b b)

pub remove_name-only : (a : Bytes) → remove_name (a ∷ []) a ≡ []
unfolding remove_name
remove_name-only a = ground (arith, str_eq_iff a a)

abbrev pub same : Bytes → Bytes → ℕ
same a b = if str_eq a b then 1 else 0

abbrev pub count : Bytes → List Bytes → ℕ
count name [] = 0
count name (n ∷ ns) = same n name + count name ns

pub count-remove_name :
    (names : List Bytes) (a n : Bytes) → count n (remove_name names a) ≡ count n names - same a n
unfolding remove_name
count-remove_name [] a n = omega arith
count-remove_name (m ∷ ms) a n = elim (Bool-cases (str_eq m a)) [
  | inl e ↦ let is : m ≡ a = (str_eq_iff m a).0 e in rw (e, is) (omega arith)
  | inr e ↦
      rw e
        (ground (arith, count-remove_name ms a n, str_eq_iff m a, str_eq_iff m n, str_eq_iff a n))
]

pub open_client-free :
    (names : List Bytes) (name : Bytes)
    → length name ≤ name_limit
    → is_registered names name ≡ false
    → open_client names (message (codes "OPEN") name) ≡ (wait name, name ∷ names)
unfolding open_client register_name str_eq
open_client-free names name short free =
    let l : ltb name_limit (length name) ≡ false = ground arith in
    rw (l, free, take-short name name_limit short) refl

-- what the answer to the first message goes with, and that names stay distinct
pub open_client-cases :
    (names : List Bytes) (r : Received)
    → Distinct names
    → Distinct (open_client names r).1
      × (((name : Bytes) × (r ≡ message (codes "OPEN") name)
            × (length name ≤ name_limit)
            × (is_registered names name ≡ false)
            × (open_client names r ≡ (wait name, name ∷ names)))
          ⊎ (((name : Bytes) → (open_client names r).0 ≢ wait name)
              × ((open_client names r).1 ≡ names)))
unfolding open_client register_name
open_client-cases names closed d = (d, inr (λ n e. cc, refl))
open_client-cases names (invalid code) d = (d, inr (λ n e. cc, refl))
open_client-cases names (message type name) d = elim (Bool-cases (str_eq type (codes "OPEN"))) [
  | inr other ↦ rw other (d, inr (λ n e. cc, refl))
  | inl open_it ↦ elim (Bool-cases (ltb name_limit (length name))) [
    | inl long ↦ rw (open_it, long) (d, inr (λ n e. cc, refl))
    | inr short ↦ elim (Bool-cases (is_registered names name)) [
      | inl taken ↦ rw (open_it, short, taken) (d, inr (λ n e. cc, refl))
      | inr free ↦
          let t = take-short name 72 (ground arith) in
          rw (open_it, short, free, t)
            (
              (free, d),
              inl (
                name,
                ap (λ (k : Bytes). message k name) ((str_eq_iff type (codes "OPEN")).0 open_it),
                ground arith,
                free,
                refl,
              ),
            )
    ]
  ]
]

-- The name is one of those in the list.
abbrev pub IsMember : Bytes → List Bytes → Type 0
IsMember name [] = ⊥
IsMember name (n ∷ ns) = (n ≡ name) ⊎ IsMember name ns

-- `register_name` looks at every name of the list.
pub is_registered_iff :
    (names : List Bytes) (name : Bytes) → is_registered names name ≡ true ↔ IsMember name names
unfolding is_registered
is_registered_iff [] name = (λ e. absurd cc, λ m. absurd m)
is_registered_iff (n ∷ ns) name =
    let (to, from) = is_registered_iff ns name in
    let (same, equal) = str_eq_iff n name in
    elim (Bool-cases (str_eq n name)) [
      | inl e ↦ rw e (λ _. inl (same e), λ _. refl)
      | inr e ↦ rw e (
        λ r. inr (to r),
        λ m. elim m [ inl is ↦ (let k = equal is in absurd cc) | inr r ↦ from r ],
      )
    ]

-- no name is in the list twice
abbrev pub AllDifferent : List Bytes → Type 0
AllDifferent [] = Unit
AllDifferent (n ∷ ns) = (¬ IsMember n ns) × AllDifferent ns

-- An `OPEN` with a name of at most 72 bytes that nobody has.
abbrev pub Admissible : List Bytes → Received → Bytes → Type 0
Admissible names r name =
    (r ≡ message (codes "OPEN") name) × (length name ≤ name_limit) × (¬ IsMember name names)

unregistered :
    (names : List Bytes) (name : Bytes) → is_registered names name ≡ false ↔ ¬ IsMember name names
unregistered names name =
    let (to, from) = is_registered_iff names name in
    (
      λ e m. let k = from m in absurd cc,
      λ out. elim (Bool-cases (is_registered names name)) [
        | inl e ↦ absurd (out (to e))
        | inr e ↦ e
      ],
    )

pub Distinct-AllDifferent : (names : List Bytes) → Distinct names ↔ AllDifferent names
Distinct-AllDifferent [] = (λ _. tt, λ _. tt)
Distinct-AllDifferent (n ∷ ns) =
    let (to, from) = unregistered ns n in
    let (down, up) = Distinct-AllDifferent ns in (λ d. (to d.0, down d.1), λ d. (from d.0, up d.1))

-- The first message of a client is answered by `WAIT` exactly where it is an `OPEN` with a name of
-- at most 72 bytes that is not in the register, and then just that name is added; in every other
-- case the answer is no `WAIT` and the register stays as it is. Different names stay different.
pub open_client_lem :
    (names : List Bytes) (r : Received)
    → AllDifferent names
    → AllDifferent (open_client names r).1
      × (((name : Bytes) × Admissible names r name
            × (open_client names r ≡ (wait name, name ∷ names)))
          ⊎ (((name : Bytes) → ¬ Admissible names r name)
              × ((name : Bytes) → (open_client names r).0 ≢ wait name)
              × ((open_client names r).1 ≡ names)))
open_client_lem names r d =
    let (kept, cases) = open_client-cases names r ((Distinct-AllDifferent names).1 d) in
    (
      (Distinct-AllDifferent (open_client names r).1).0 kept,
      elim cases [
        | inl (name, opens, short, free, answer) ↦
            inl (name, (opens, short, (unregistered names name).0 free), answer)
        | inr (nobody, same_names) ↦ inr (
          λ name a.
              let free = (unregistered names name).1 a.2 in
              nobody name (
                ap (λ (x : Received). (open_client names x).0) a.0
                ∙ ap (λ (o : Answer × List Bytes). o.0) (open_client-free names name a.1 free)),
          nobody,
          same_names,
        )
      ],
    )
