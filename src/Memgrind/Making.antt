-- ===== src/Memgrind/Making.antt =====
-- The loops of `task4` of P1/memgrind.c that make the list and that free what is left of it.
use cs214_assignments.Base.{
  ℕ, zero, suc, ◌+◌, ◌-◌, ◌%◌, ◌≤◌, ◌<◌, true, false, List, [], ◌∷◌, ◌≡◌, refl, sym, ◌∙◌, subst,
  arith, length, ◌==◌,
}
use cs214_assignments.Malloc.{store}
use cs214_assignments.Malloc.Represent.{store_self}
use cs214_assignments.Memgrind.{World, ok, M, checked, malloc, free}
use cs214_assignments.Memgrind.Stored.{write_data, write_next, read_next, build, free_rest}
use cs214_assignments.Memgrind.Tasks.{bind_ok, checked_lem, Returns}
use cs214_assignments.Memgrind.Resizes.{Owns-none}
use cs214_assignments.Memgrind.Linked.{Chain, Chain-same}
use cs214_assignments.Memgrind.Nodes.{Nodes, write_lem, drop_lem, add_lem}

module _ (base : ℕ) (pos : 0 < base) (align : base % 8 ≡ 0) where
  -- The program holds a list of these nodes.
  pub record Listed (w : World) (ps : List ℕ) (head : ℕ) : Type 0 where
    pub nodes : Nodes base w ps
    pub chain : Chain base w.heap.bytes ps head 0

  -- A part of the program that gives the head of a list of at most `most` nodes.
  pub record Lists (m : M ℕ) (w : World) (most : ℕ) : Type 0 where
    pub ptrs : List ℕ
    pub head : ℕ
    pub world : World
    pub returns : m w ≡ ok head world
    pub listed : Listed world ptrs head
    pub short : length ptrs ≤ most

  pub build-Lists :
      (n i head : ℕ) (ps : List ℕ) (w : World)
      → length ps + n ≤ 60
      → Listed w ps head
      → Lists (build base n i head) w (length ps + n)
  unfolding build write_data write_next
  build-Lists zero i head ps w few l = record {
    ptrs = ps;
    head = head;
    world = w;
    returns = refl;
    listed = l;
    short = omega arith;
  }
  build-Lists (suc n) i head ps w few l =
      let a = add_lem base pos w ps 113 (omega (arith, few)) l.nodes in
      let p = a.pointer in
      let d = write_lem base a.world [] ps p 0 i (omega arith) a.nodes in
      let w2 : World = record a.world {
        heap = record a.world.heap { bytes = store a.world.heap.bytes (p - base + 0) i };
      } in
      let x = write_lem base w2 [] ps p 8 head (omega arith) d.nodes in
      let m3 = store w2.heap.bytes (p - base + 8) head in
      let w3 : World = record w2 { heap = record w2.heap { bytes = m3 } } in
      let c1 = Chain-same base w.heap.bytes a.world.heap.bytes ps head 0 a.others l.chain in
      let c2 = Chain-same base a.world.heap.bytes w2.heap.bytes ps head 0 d.others c1 in
      let c3 = Chain-same base w2.heap.bytes m3 ps head 0 x.others c2 in
      let l' : Listed w3 (p ∷ ps) p = record {
        nodes = x.nodes;
        chain = (
          refl,
          a.nonzero,
          subst (λ (h : ℕ). Chain base m3 ps h 0)
              (sym (store_self w2.heap.bytes (p - base + 8) head)) c3,
        );
      } in
      let r = build-Lists n (i + 1) p (p ∷ ps) w3 (omega (arith, few)) l' in
      record {
        ptrs = r.ptrs;
        head = r.head;
        world = r.world;
        returns =
            bind_ok (malloc base 113 16) _ w a.world p a.returns
            ∙ bind_ok (checked base p) _ a.world a.world p (checked_lem base p a.world a.nonzero)
            ∙ r.returns;
        listed = r.listed;
        short = omega (arith, r.short);
      }

  -- the loop that frees the rest
  pub free_rest-Returns :
      (f : ℕ) (ps : List ℕ) (head : ℕ) (w : World)
      → length ps < f
      → Listed w ps head
      → Returns base (free_rest base f head) w
  unfolding free_rest read_next
  free_rest-Returns zero ps head w h l = absurd (omega arith)
  free_rest-Returns (suc f) [] head w h l =
      let e : (head == 0) ≡ true = ground (arith, l.chain) in
      rw (e, free_rest)
        (record { world = w; returns = refl; owns = Owns-none base 24 16 w l.nodes.owns })
  free_rest-Returns (suc f) (p ∷ ps) head w h l =
      let (is, ne, c) = l.chain in
      let e : (p == 0) ≡ false = ground (arith, ne) in
      let next = w.heap.bytes (p - base + 8) in
      let d = drop_lem base align w [] ps 149 p l.nodes in
      let l' : Listed d.world ps next = record {
        nodes = d.nodes;
        chain = Chain-same base w.heap.bytes d.world.heap.bytes ps next 0 d.others c;
      } in
      let r = free_rest-Returns f ps next d.world (omega arith) l' in
      subst (λ (h : ℕ). Returns base (free_rest base (suc f) h) w) (sym is)
        (rw (e, free_rest)
          (record {
            world = r.world;
            returns = bind_ok (free base 149 p) _ w d.world tt d.returns ∙ r.returns;
            owns = r.owns;
          }))
