-- ===== src/Icl/Cache/Coherent.antt =====
-- icl/generic_cache.cc: the invariant of the cache, and what keeps it.
use simple_ssd.Base.{
  ℕ, ◌*◌, ◌<◌, ◌≡◌, ◌∙◌, ◌⊎◌, inl, inr, refl, true, false, [], none, some, arith, if◌then◌else◌,
  length, get_or, Bool-cases,
}
use simple_ssd.Icl.Cache.State.{
  Line, Place, Cache, line_at, put_line, evict_at, max64, calc_set_index,
}
use simple_ssd.Icl.Cache.Lines.{IsShaped, InCache, same_place, line_at-put_line, put_line-IsShaped}

-- The positions of `evictData`.
pub record IsGrid (c : Cache) : Type 0 where
  pub rows : length c.evict_data ≡ c.geometry.line_count_in_super_page
  pub cols :
      (r : ℕ)
      → r < c.geometry.line_count_in_super_page
      → length (get_or c.evict_data r []) ≡ c.geometry.conf.parallel_io

-- Its pointers are to lines of the cache.
abbrev pub PointsIn : Cache → Type 0
PointsIn c = (r k : ℕ) (p : Place) → evict_at c r k ≡ some p → InCache c p

-- A valid line stands in the set of its tag, and no other valid line has the tag. Between two
-- requests nothing is set aside to be evicted. Times are below the greatest `uint64_t`.
pub record IsCoherent (c : Cache) : Type 0 where
  pub shaped : IsShaped c
  pub grid : IsGrid c
  pub lines_pos : 0 < c.geometry.line_count_in_super_page
  pub parallel_pos : 0 < c.geometry.conf.parallel_io
  pub max_io :
      c.geometry.line_count_in_max_io
      ≡ c.geometry.conf.parallel_io * c.geometry.line_count_in_super_page
  pub home :
      (p : Place)
      → InCache c p
      → (line_at c p).valid ≡ true
      → p.0 ≡ calc_set_index c.geometry (line_at c p).tag
  pub unique :
      (p q : Place)
      → InCache c p
      → InCache c q
      → (line_at c p).valid ≡ true
      → (line_at c q).valid ≡ true
      → (line_at c p).tag ≡ (line_at c q).tag
      → p.1 ≡ q.1
  pub timely : (p : Place) → InCache c p → (line_at c p).inserted_at < max64
  pub idle : (r k : ℕ) → evict_at c r k ≡ none

-- The lines of `c'` are those of `c`, or invalid.
pub record Weaker (c c' : Cache) : Type 0 where
  pub same_geometry : c'.geometry ≡ c.geometry
  pub shaped : IsShaped c'
  pub lines :
      (p : Place) → InCache c p → (line_at c' p ≡ line_at c p) ⊎ ((line_at c' p).valid ≡ false)

pub Weaker-refl : {c : Cache} → IsShaped c → Weaker c c
Weaker-refl v = record { same_geometry = refl; shaped = v; lines = λ p h. inl refl }

pub Weaker-trans : {a b c : Cache} → Weaker a b → Weaker b c → Weaker a c
Weaker-trans {a} {b} {c} f g = record {
  same_geometry = g.same_geometry ∙ f.same_geometry;
  shaped = g.shaped;
  lines = λ p h. elim (g.lines p (ground (arith, h, f.same_geometry))) [
    | inr gone ↦ inr gone
    | inl same ↦ elim (f.lines p h) [
      | inl same' ↦ inl (same ∙ same')
      | inr gone ↦ inr (ground (arith, same, gone))
    ]
  ];
}

-- Evicting lines, or storing one for a tag that no other valid line has, keeps the invariant.
pub Weaker-IsCoherent :
    {c c' : Cache}
    → IsCoherent c
    → Weaker c c'
    → IsGrid c'
    → ((r k : ℕ) → evict_at c' r k ≡ none)
    → ((p : Place) → InCache c' p → (line_at c' p).inserted_at < max64)
    → IsCoherent c'
Weaker-IsCoherent {c} {c'} v w grid idle timely = record {
  shaped = w.shaped;
  grid = grid;
  lines_pos = ground (arith, v.lines_pos, w.same_geometry);
  parallel_pos = ground (arith, v.parallel_pos, w.same_geometry);
  max_io = ground (arith, v.max_io, w.same_geometry);
  home = λ p h e. ground (arith, w.lines p (inside p h), w.same_geometry, v.home p (inside p h));
  unique = λ p q hp hq e e' t. ground (
    arith,
    w.lines p (inside p hp),
    w.lines q (inside q hq),
    v.unique p q (inside p hp) (inside q hq),
  );
  timely = timely;
  idle = idle;
}
  where
    inside : (p : Place) → InCache c' p → InCache c p
    inside p h = ground (arith, h, w.same_geometry)

module _ {c : Cache} (v : IsCoherent c) (p : Place) (x : Line) (here : InCache c p)
    (at_home : p.0 ≡ calc_set_index c.geometry x.tag)
    (alone : (q : Place)
      → InCache c q
      → (line_at c q).valid ≡ true
      → (line_at c q).tag ≡ x.tag
      → p.1 ≡ q.1)
    (early : x.inserted_at < max64) where
  abbrev stored : Cache
  stored = put_line c p x

  line_after : (q : Place) → line_at stored q ≡ (if same_place p q then x else line_at c q)
  line_after q = line_at-put_line v.shaped p x here q

  pub put_line-IsCoherent : IsCoherent (put_line c p x)
  put_line-IsCoherent = record {
    shaped = put_line-IsShaped v.shaped p x here;
    grid = record { rows = v.grid.rows; cols = v.grid.cols };
    lines_pos = v.lines_pos;
    parallel_pos = v.parallel_pos;
    max_io = v.max_io;
    home = λ q h e. elim (Bool-cases (same_place p q)) [
      | inl here ↦ ground (arith, line_after q, at_home)
      | inr other ↦ ground (arith, line_after q, v.home q h)
    ];
    unique = λ q r hq hr e e' t. elim (Bool-cases (same_place p q)) [
      | inl here ↦ ground (arith, line_after q, line_after r, alone r hr)
      | inr other ↦ ground (arith, line_after q, line_after r, alone q hq, v.unique q r hq hr)
    ];
    timely = λ q h. ground (arith, line_after q, v.timely q h);
    idle = v.idle;
  }
