-- ===== src/Malloc/Picks.antt =====
-- A list of pointers in any order, each of them the address of a block of its own.
use cs214_assignments.Base.{
  ℕ, ◌+◌, ◌*◌, ◌≤◌, List, [], ◌∷◌, ◌++◌, ◌≡◌, refl, sym, ap, ◌∙◌, subst, arith, length,
  length-append,
}
use cs214_assignments.Malloc.Layout.{total}

pub data Picks (base : ℕ) : List ℕ → List (ℕ × ℕ) → Type 0 where
  done : Picks base [] []
  pick :
      {p : ℕ} {ps : List ℕ} {bs : List (ℕ × ℕ)} (q n : ℕ) (before after : List (ℕ × ℕ))
      → p ≡ base + q
      → bs ≡ before ++ (q, n) ∷ after
      → Picks base ps (before ++ after)
      → Picks base (p ∷ ps) bs

-- Where `p` stands among the blocks, and what the other pointers pick.
pub record Picked (base p : ℕ) (ps : List ℕ) (bs : List (ℕ × ℕ)) : Type 0 where
  pub address : ℕ
  pub size : ℕ
  pub before : List (ℕ × ℕ)
  pub after : List (ℕ × ℕ)
  pub pointer_is : p ≡ base + address
  pub splits : bs ≡ before ++ (address, size) ∷ after
  pub others : Picks base ps (before ++ after)

head-Picked :
    {base p : ℕ} {ps : List ℕ} {bs : List (ℕ × ℕ)} → Picks base (p ∷ ps) bs → Picked base p ps bs
head-Picked (pick q n before after e s rest) = record {
  address = q;
  size = n;
  before = before;
  after = after;
  pointer_is = e;
  splits = s;
  others = rest;
}

-- `x` put into a list that holds `y`: both stand in the result, and either can be taken out first.
record Both {ℓ} {A : Type ℓ} (x y : A) (b1 a1 b2 a2 : List A) : Type ℓ where
  c : List A
  d : List A
  e : List A
  f : List A
  holds_y : b1 ++ x ∷ a1 ≡ c ++ y ∷ d
  holds_x : c ++ d ≡ e ++ x ∷ f
  without : e ++ f ≡ b2 ++ a2

both {ℓ} :
    {A : Type ℓ} (x y : A) (b1 a1 b2 a2 : List A) → b1 ++ a1 ≡ b2 ++ y ∷ a2 → Both x y b1 a1 b2 a2
both x y [] a1 b2 a2 h = record {
  c = x ∷ b2;
  d = a2;
  e = [];
  f = b2 ++ a2;
  holds_y = ap (◌∷◌ x) h;
  holds_x = refl;
  without = refl;
}
both x y (z ∷ b1) a1 [] a2 h = record {
  c = [];
  d = b1 ++ x ∷ a1;
  e = b1;
  f = a1;
  holds_y = let k : z ≡ y = cc in cc;
  holds_x = refl;
  without = cc;
}
both x y (z ∷ b1) a1 (u ∷ b2) a2 h =
    let rest : b1 ++ a1 ≡ b2 ++ y ∷ a2 = cc in
    let same : z ≡ u = cc in
    let r = both x y b1 a1 b2 a2 rest in
    record {
      c = z ∷ r.c;
      d = r.d;
      e = z ∷ r.e;
      f = r.f;
      holds_y = ap (◌∷◌ z) r.holds_y;
      holds_x = ap (◌∷◌ z) r.holds_x;
      without = let k = r.without in cc;
    }

module _ (base : ℕ) where
  pub Picks-remove :
      (xs ys : List ℕ) (p : ℕ) (bs : List (ℕ × ℕ))
      → Picks base (xs ++ p ∷ ys) bs
      → Picked base p (xs ++ ys) bs
  Picks-remove [] ys p bs h = head-Picked h
  Picks-remove (x ∷ xs) ys p bs h =
      let k = head-Picked h in
      let r = Picks-remove xs ys p (k.before ++ k.after) k.others in
      let t =
        both (k.address, k.size) (r.address, r.size) k.before k.after r.before r.after r.splits in
      record {
        address = r.address;
        size = r.size;
        before = t.c;
        after = t.d;
        pointer_is = r.pointer_is;
        splits = k.splits ∙ t.holds_y;
        others =
            pick k.address k.size t.e t.f k.pointer_is t.holds_x
              (subst (Picks base (xs ++ ys)) (sym t.without) r.others);
      }

  pub Picks-insert :
      (xs ys : List ℕ) (p q n : ℕ) (before after : List (ℕ × ℕ))
      → p ≡ base + q
      → Picks base (xs ++ ys) (before ++ after)
      → Picks base (xs ++ p ∷ ys) (before ++ (q, n) ∷ after)
  Picks-insert [] ys p q n before after e h = pick q n before after e refl h
  Picks-insert (x ∷ xs) ys p q n before after e h =
      let k = head-Picked h in
      let t = both (q, n) (k.address, k.size) before after k.before k.after k.splits in
      pick k.address k.size t.c t.d k.pointer_is t.holds_y (
        subst (Picks base (xs ++ p ∷ ys)) (sym t.holds_x) (
          Picks-insert xs ys p q n t.e t.f e
            (subst (Picks base (xs ++ ys)) (sym t.without) k.others)))

  pub length-Picks : (ps : List ℕ) (bs : List (ℕ × ℕ)) → Picks base ps bs → length bs ≡ length ps
  length-Picks all bs done = refl
  length-Picks all bs (pick {p} {ps} q n before after e s rest) =
      let ih = length-Picks ps (before ++ after) rest in
      ap length s
      ∙ omega (arith, ih, length-append before after, length-append before ((q, n) ∷ after))

-- every block has at most `b` bytes
abbrev pub Small : ℕ → List (ℕ × ℕ) → Type 0
Small b [] = Unit
Small b ((p, n) ∷ bs) = (n ≤ b) × Small b bs

pub Small-insert :
    (b : ℕ) (before after : List (ℕ × ℕ)) (q n : ℕ)
    → n ≤ b
    → Small b (before ++ after)
    → Small b (before ++ (q, n) ∷ after)
Small-insert b [] after q n h s = (h, s)
Small-insert b ((p, m) ∷ before) after q n h s = (s.0, Small-insert b before after q n h s.1)

pub Small-remove :
    (b : ℕ) (before after : List (ℕ × ℕ)) (q n : ℕ)
    → Small b (before ++ (q, n) ∷ after)
    → Small b (before ++ after)
Small-remove b [] after q n s = s.1
Small-remove b ((p, m) ∷ before) after q n s = (s.0, Small-remove b before after q n s.1)

pub total-Small : (b : ℕ) (bs : List (ℕ × ℕ)) → Small b bs → total bs ≤ b * length bs
total-Small b [] s = omega arith
total-Small b ((p, n) ∷ bs) s = grind (arith, total-Small b bs s.1)
