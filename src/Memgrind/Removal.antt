-- ===== src/Memgrind/Removal.antt =====
-- The loop of `task4` of P1/memgrind.c that removes every other node, and the whole task.
use cs214_assignments.Base.{
  ℕ, zero, suc, ◌+◌, ◌-◌, ◌%◌, ◌≤◌, ◌<◌, true, false, List, [], ◌∷◌, ◌++◌, ◌≡◌, refl, sym, ap, ◌∙◌,
  subst, arith, length, length-append, Bool-cases, inl, inr, ◌==◌,
}
use cs214_assignments.Malloc.{store}
use cs214_assignments.Malloc.Represent.{store_self}
use cs214_assignments.Memgrind.{World, ok, ◌>>◌, free}
use cs214_assignments.Memgrind.Stored.{
  write_next, read_next, build, unlink, remove_odd, list_task, task4,
}
use cs214_assignments.Malloc.Chunks.{blocks}
use cs214_assignments.Malloc.Picks.{length-Picks}
use cs214_assignments.Memgrind.Owned.{Owns}
use cs214_assignments.Memgrind.Tasks.{bind_ok, Returns}
use cs214_assignments.Memgrind.Resizes.{Owns-none, no_blocks}
use cs214_assignments.Memgrind.Linked.{
  Big, Chain, Chain-same, Chain-append, Chain-last, SameNext-split,
}
use cs214_assignments.Memgrind.Nodes.{Nodes, write_lem, drop_lem}
use cs214_assignments.Memgrind.Making.{Listed, Lists, build-Lists, free_rest-Returns}

module _ (base : ℕ) (pos : 0 < base) (align : base % 8 ≡ 0) where
  -- Behind `prev` stands the rest of the list from `curr` on.
  record Walking (w : World) (zs : List ℕ) (prev : ℕ) (ys : List ℕ) (head curr : ℕ) : Type 0 where
    nodes : Nodes base w (zs ++ prev ∷ ys)
    front : Chain base w.heap.bytes (zs ++ prev ∷ []) head curr
    back : Chain base w.heap.bytes ys curr 0

  shift : (zs ys : List ℕ) (p q : ℕ) → zs ++ p ∷ q ∷ ys ≡ (zs ++ p ∷ []) ++ q ∷ ys
  shift [] ys p q = refl
  shift (z ∷ zs) ys p q = ap (◌∷◌ z) (shift zs ys p q)

  join : (zs ys : List ℕ) (p : ℕ) → (zs ++ p ∷ []) ++ ys ≡ zs ++ p ∷ ys
  join [] ys p = refl
  join (z ∷ zs) ys p = ap (◌∷◌ z) (join zs ys p)

  -- the node at `p` is passed
  passed-Walking :
      (w : World) (zs : List ℕ) (prev p : ℕ) (ys : List ℕ) (head : ℕ)
      → Walking w zs prev (p ∷ ys) head p
      → Walking w (zs ++ prev ∷ []) p ys head (w.heap.bytes (p - base + 8))
  passed-Walking w zs prev p ys head k = record {
    nodes = subst (Nodes base w) (shift zs ys prev p) k.nodes;
    front =
        Chain-append base w.heap.bytes (zs ++ prev ∷ []) (p ∷ []) head p
          (w.heap.bytes (p - base + 8)) k.front (refl, k.back.1, refl);
    back = k.back.2;
  }

  -- the node at `p` is left out and freed
  record Cut (w : World) (zs : List ℕ) (prev p : ℕ) (ys : List ℕ) (head : ℕ) : Type 0 where
    linked : World
    links : unlink base head prev (w.heap.bytes (p - base + 8)) w ≡ ok head linked
    still : linked.heap.bytes (p - base + 8) ≡ w.heap.bytes (p - base + 8)
    world : World
    returns : free base 137 p linked ≡ ok tt world
    walking : Walking world zs prev ys head (w.heap.bytes (p - base + 8))

  cut_lem :
      (w : World) (zs : List ℕ) (prev p : ℕ) (ys : List ℕ) (head : ℕ)
      → Walking w zs prev (p ∷ ys) head p
      → Cut w zs prev p ys head
  unfolding unlink write_next
  cut_lem w zs prev p ys head k =
      let next = w.heap.bytes (p - base + 8) in
      let (front, prev_pos, cell) = Chain-last base w.heap.bytes zs prev head p k.front in
      let e : (prev == 0) ≡ false = ground (arith, prev_pos) in
      let x = write_lem base w zs (p ∷ ys) prev 8 next (omega arith) k.nodes in
      let m' = store w.heap.bytes (prev - base + 8) next in
      let w' : World = record w { heap = record w.heap { bytes = m' } } in
      let (s_front, s_rest) = SameNext-split base w.heap.bytes m' zs (p ∷ ys) x.others in
      let self = store_self w.heap.bytes (prev - base + 8) next in
      let front' : Chain base m' (zs ++ prev ∷ []) head next =
        Chain-append base m' zs (prev ∷ []) head prev next
          (Chain-same base w.heap.bytes m' zs head prev s_front front) (refl, prev_pos, self) in
      let back' : Chain base m' ys next 0 =
        Chain-same base w.heap.bytes m' ys next 0 s_rest.1 k.back.2 in
      let d =
        drop_lem base align w' (zs ++ prev ∷ []) ys 137 p
          (subst (Nodes base w') (shift zs ys prev p) x.nodes) in
      let (d_front, d_back) =
        SameNext-split base m' d.world.heap.bytes (zs ++ prev ∷ []) ys d.others in
      record {
        linked = w';
        links = rw (e, unlink) refl;
        still = s_rest.0;
        world = d.world;
        returns = d.returns;
        walking = record {
          nodes = subst (Nodes base d.world) (join zs ys prev) d.nodes;
          front = Chain-same base m' d.world.heap.bytes (zs ++ prev ∷ []) head next d_front front';
          back = Chain-same base m' d.world.heap.bytes ys next 0 d_back back';
        };
      }

  remove_odd-Lists :
      (f count head prev curr : ℕ) (zs ys : List ℕ) (w : World)
      → length ys < f
      → Walking w zs prev ys head curr
      → Lists base pos align (remove_odd base f count head prev curr) w (length zs + 1 + length ys)
  unfolding remove_odd read_next
  remove_odd-Lists zero count head prev curr zs ys w h k = absurd (omega arith)
  remove_odd-Lists (suc f) count head prev curr zs [] w h k =
      let e : (curr == 0) ≡ true = ground (arith, k.back) in
      rw (e, remove_odd)
        (record {
          ptrs = zs ++ prev ∷ [];
          head = head;
          world = w;
          returns = refl;
          listed = record {
            nodes = k.nodes;
            chain = subst (Chain base w.heap.bytes (zs ++ prev ∷ []) head) k.back k.front;
          };
          short = omega (arith, length-append zs (prev ∷ []));
        })
  remove_odd-Lists (suc f) count head prev curr zs (p ∷ ys) w h k =
      let is = k.back.0 in
      let at_p : Walking w zs prev (p ∷ ys) head p = subst (Walking w zs prev (p ∷ ys) head) is k in
      let e : (p == 0) ≡ false = ground (arith, k.back.1) in
      let next = w.heap.bytes (p - base + 8) in
      subst
        (λ (c : ℕ).
          Lists base pos align (remove_odd base (suc f) count head prev c) w
            (length zs + 1 + length (p ∷ ys)))
        (sym is)
        (elim (Bool-cases (count % 2 == 1)) [
          | inl odd ↦
              let c = cut_lem w zs prev p ys head at_p in
              let r =
                remove_odd-Lists f (count + 1) head prev next zs ys c.world (omega arith)
                  c.walking in
              rw (e, odd, remove_odd)
                (record {
                  ptrs = r.ptrs;
                  head = r.head;
                  world = r.world;
                  returns =
                      bind_ok (unlink base head prev next) _ w c.linked head c.links
                      ∙ ap
                          (λ (q : ℕ).
                            (free base 137 p >> remove_odd base f (count + 1) head prev q) c.linked)
                          c.still
                      ∙ bind_ok (free base 137 p) _ c.linked c.world tt c.returns
                      ∙ r.returns;
                  listed = r.listed;
                  short = omega (arith, r.short);
                })
          | inr even ↦
              let r =
                remove_odd-Lists f (count + 1) head p next (zs ++ prev ∷ []) ys w (omega arith)
                  (passed-Walking w zs prev p ys head at_p) in
              rw (e, even, remove_odd)
                (record {
                  ptrs = r.ptrs;
                  head = r.head;
                  world = r.world;
                  returns = r.returns;
                  listed = r.listed;
                  short = omega (arith, r.short, length-append zs (prev ∷ []));
                })
        ])

  -- the loop from the first node on
  start-Lists :
      (f : ℕ) (ps : List ℕ) (head : ℕ) (w : World)
      → length ps ≤ f
      → Listed base pos align w ps head
      → Lists base pos align (remove_odd base (suc f) 0 head 0 head) w f
  unfolding remove_odd read_next
  start-Lists f [] head w few l =
      let e : (head == 0) ≡ true = ground (arith, l.chain) in
      rw (e, remove_odd)
        (record {
          ptrs = [];
          head = head;
          world = w;
          returns = refl;
          listed = l;
          short = omega arith;
        })
  start-Lists f (p ∷ ys) head w few l =
      let (is, ne, c) = l.chain in
      let e : (head == 0) ≡ false = ground (arith, is, ne) in
      let next = w.heap.bytes (head - base + 8) in
      let k : Walking w [] head ys head next = record {
        nodes = subst (λ (q : ℕ). Nodes base w (q ∷ ys)) (sym is) l.nodes;
        front = (refl, λ z. ne (sym is ∙ z), refl);
        back =
            subst (λ (q : ℕ). Chain base w.heap.bytes ys (w.heap.bytes (q - base + 8)) 0) (sym is)
              c;
      } in
      let r = remove_odd-Lists f 1 head head next [] ys w (omega arith) k in
      rw (e, remove_odd)
        (record {
          ptrs = r.ptrs;
          head = r.head;
          world = r.world;
          returns = r.returns;
          listed = r.listed;
          short = omega (arith, r.short, few);
        })

  list_task-Returns :
      (n : ℕ) (w : World) → n ≤ 60 → Owns base 16 w [] → Returns base (list_task base n (suc n)) w
  unfolding list_task
  list_task-Returns n w few o =
      let o' = Owns-none base 16 24 w o in
      let empty =
        no_blocks (blocks 0 o'.chunks) (length-Picks base [] (blocks 0 o'.chunks) o'.picks) in
      let none_left : Listed base pos align w [] 0 = record {
        nodes = record { owns = o'; big = subst Big (sym empty) tt };
        chain = refl;
      } in
      let b = build-Lists base pos align n 0 0 [] w (omega (arith, few)) none_left in
      let r = start-Lists n b.ptrs b.head b.world (omega (arith, b.short)) b.listed in
      let f =
        free_rest-Returns base pos align (suc n) r.ptrs r.head r.world (omega (arith, r.short))
          r.listed in
      record {
        world = f.world;
        returns =
            bind_ok (build base n 0 0) _ w b.world b.head b.returns
            ∙ bind_ok (remove_odd base (suc n) 0 b.head 0 b.head) _ b.world r.world r.head r.returns
            ∙ f.returns;
        owns = f.owns;
      }

  pub task4-Returns : (w : World) → Owns base 16 w [] → Returns base (task4 base) w
  unfolding task4
  task4-Returns w o = list_task-Returns 60 w (omega arith) o
