-- ===== src/Spell/Words.antt =====
-- `normalize_word` and `ends_with` of P2/src/spell.c.
use cs214_assignments.Base.{
  ℕ, zero, suc, ◌+◌, ◌-◌, ◌<◌, ◌≤◌, ◌⊎◌, ◌↔◌, true, false, [], ◌∷◌, ◌++◌, ◌≡◌, refl, sym, ap, ◌∙◌,
  subst, arith, ltb, leb, ◌==◌, Bool-cases, ==_iff, leb→le, inl, inr, length, length-append, get_or,
  take, drop,
}
use cs214_assignments.Base.Bytes.{Bytes, is_alnum, str_eq_iff}
use cs214_assignments.Spell.{is_opening, skip_opening, trim_end, normalize_word, ends_with}

-- `start` is the length of the longest prefix of opening punctuation.
record Skipped (src : Bytes) (start : ℕ) : Type 0 where
  inside : start ≤ length src
  all_opening : (i : ℕ) → i < start → is_opening (get_or src i 0) ≡ true
  stops : start < length src → is_opening (get_or src start 0) ≡ false

skip_opening-Skipped : (src : Bytes) → Skipped src (skip_opening src)
unfolding skip_opening
skip_opening-Skipped [] = record {
  inside = omega arith;
  all_opening = λ i h. absurd (omega arith);
  stops = λ h. absurd (omega arith);
}
skip_opening-Skipped (c ∷ cs) = elim (Bool-cases (is_opening c)) [
  | inl o ↦ rw o (longer c cs o (skip_opening-Skipped cs))
  | inr n ↦
      rw n
        (record { inside = omega arith; all_opening = λ i h. absurd (omega arith); stops = λ h. n })
]
  where
    longer :
        (c : ℕ) (cs : Bytes)
        → is_opening c ≡ true
        → Skipped cs (skip_opening cs)
        → Skipped (c ∷ cs) (suc (skip_opening cs))
    longer c cs o s = record {
      inside = omega (arith, s.inside);
      all_opening = elim [ zero ↦ λ h. o | suc i ↦ λ h. s.all_opening i (omega arith) ];
      stops = λ h. s.stops (omega arith);
    }

-- `stop` is where the trailing bytes that are no letters or digits begin.
record Trimmed (src : Bytes) (start stop end : ℕ) : Type 0 where
  from_start : start ≤ stop
  to_end : stop ≤ end
  none_behind : (i : ℕ) → stop ≤ i → i < end → is_alnum (get_or src i 0) ≡ false
  last_is_alnum : (stop ≡ start) ⊎ (is_alnum (get_or src (stop - 1) 0) ≡ true)

module _ (src : Bytes) {start stop : ℕ} (end : ℕ) (n : is_alnum (get_or src end 0) ≡ false) where
  one_more : Trimmed src start stop end → Trimmed src start stop (suc end)
  one_more t = record {
    from_start = t.from_start;
    to_end = omega (arith, t.to_end);
    none_behind = λ i x y. elim (Bool-cases (i == end)) [
      | inl e ↦ subst (λ k. is_alnum (get_or src k 0) ≡ false) (sym ((==_iff i end).0 e)) n
      | inr e ↦ t.none_behind i x (ground arith)
    ];
    last_is_alnum = t.last_is_alnum;
  }

trim_end-Trimmed :
    (src : Bytes) (start end : ℕ) → start ≤ end → Trimmed src start (trim_end src start end) end
unfolding trim_end
trim_end-Trimmed src start zero h = record {
  from_start = h;
  to_end = omega arith;
  none_behind = λ i a b. absurd (omega arith);
  last_is_alnum = inl (omega arith);
}
trim_end-Trimmed src start (suc end) h = elim (Bool-cases (leb start end)) [
  | inl inside ↦ elim (Bool-cases (is_alnum (get_or src end 0))) [
    | inl a ↦
        rw (inside, a)
          (record {
            from_start = omega arith;
            to_end = omega arith;
            none_behind = λ i x y. absurd (omega arith);
            last_is_alnum = inr (subst (λ k. is_alnum (get_or src k 0) ≡ true) (omega arith) a);
          })
    | inr n ↦
        rw (inside, n)
          (one_more src end n (trim_end-Trimmed src start end (leb→le start end inside)))
  ]
  | inr outside ↦ rw outside (record {
    from_start = omega arith;
    to_end = omega arith;
    none_behind = λ i x y. absurd (omega arith);
    last_is_alnum = inl (ground arith);
  })
]

-- What `normalize_word` keeps: the bytes from `start` up to `stop`. All in front are opening
-- punctuation and the next one is not; none behind is a letter or a digit, and the last one kept is.
pub record Normalized (src word : Bytes) : Type 0 where
  pub start : ℕ
  pub stop : ℕ
  pub in_order : (start ≤ stop) × (stop ≤ length src)
  pub word_is : word ≡ take (stop - start) (drop start src)
  pub opening_in_front : (i : ℕ) → i < start → is_opening (get_or src i 0) ≡ true
  pub no_more_opening : start < length src → is_opening (get_or src start 0) ≡ false
  pub none_behind : (i : ℕ) → stop ≤ i → i < length src → is_alnum (get_or src i 0) ≡ false
  pub last_is_alnum : (stop ≡ start) ⊎ (is_alnum (get_or src (stop - 1) 0) ≡ true)

-- `normalize_word` strips the longest prefix of opening punctuation, and then the longest suffix
-- without a letter or a digit.
pub normalize_word-Normalized : (src : Bytes) → Normalized src (normalize_word src)
unfolding normalize_word
normalize_word-Normalized src =
    let s = skip_opening-Skipped src in
    let t = trim_end-Trimmed src (skip_opening src) (length src) s.inside in
    record {
      start = skip_opening src;
      stop = trim_end src (skip_opening src) (length src);
      in_order = (t.from_start, t.to_end);
      word_is = refl;
      opening_in_front = s.all_opening;
      no_more_opening = s.stops;
      none_behind = t.none_behind;
      last_is_alnum = t.last_is_alnum;
    }

take-append-drop : (n : ℕ) (xs : Bytes) → take n xs ++ drop n xs ≡ xs
take-append-drop zero xs = refl
take-append-drop (suc n) [] = refl
take-append-drop (suc n) (x ∷ xs) = rw (take-append-drop n xs)

drop-append : (xs ys : Bytes) → drop (length xs) (xs ++ ys) ≡ ys
drop-append [] ys = refl
drop-append (x ∷ xs) ys = drop-append xs ys

-- `ends_with` holds of exactly the names that are something followed by the suffix.
pub ends_with_iff :
    (str suffix : Bytes)
    → (ends_with str suffix ≡ true) ↔ ((front : Bytes) × (str ≡ front ++ suffix))
unfolding ends_with
ends_with_iff str suffix = (
  λ h.
      let n = length str - length suffix in
      let e : drop n str ≡ suffix = (str_eq_iff (drop n str) suffix).0 (ground arith) in
      (take n str, sym (take-append-drop n str) ∙ ap (◌++◌ (take n str)) e),
  λ (front, e).
      let k : length str ≡ length front + length suffix =
        ap length e ∙ length-append front suffix in
      let n : length str - length suffix ≡ length front = omega arith in
      let long : ltb (length str) (length suffix) ≡ false = ground arith in
      let d : drop (length front) str ≡ suffix =
        ap (drop (length front)) e ∙ drop-append front suffix in
      rw (long, n, d) ((str_eq_iff suffix suffix).1 refl),
)
