-- ===== src/Icl/Cache/Chosen.antt =====
-- icl/generic_cache.cc: one of the victims that write() chooses stands in the full set.
use simple_ssd.Base.{
  ℕ, zero, suc, ◌+◌, ◌≤◌, ◌<◌, ◌≡◌, ◌∙◌, ◌⊎◌, inl, inr, refl, Bool, true, false, List, [], ◌∷◌,
  Option, none, some, arith, ◌==◌, if◌then◌else◌, length, get_or, Bool-cases,
}
use simple_ssd.Icl.Cache.State.{
  Place, Cache, line_at, evict_at, put_evict, calc_set_index, calc_io_position,
}
use simple_ssd.Icl.Cache.Ways.{compare_lines}
use simple_ssd.Icl.Cache.Coherent.{IsCoherent}
use simple_ssd.Icl.Cache.Evictions.{evict_at-put_evict}
use simple_ssd.Icl.Cache.Victims.{
  IsVictim, Offered, compare_lines-either, compare_lines-IsVictim, row_col-lt, put_evict-Offered,
  offer_sets-Offered,
}
use simple_ssd.Icl.Cache.Store.{
  offer_sets, shift_from, shift_row, shift_rows, in_row, in_rows, victim_of, choose_victims,
}

length-shift_from :
    (c : Cache) (x : Option Place) (xs : List (Option Place))
    → length (shift_from c x xs) ≡ suc (length xs)
unfolding shift_from
length-shift_from c x [] = refl
length-shift_from c x (y ∷ ys) = omega (arith, length-shift_from c (compare_lines c x y) ys)

length-shift_row : (c : Cache) (xs : List (Option Place)) → length (shift_row c xs) ≡ length xs
length-shift_row c [] = refl
length-shift_row c (x ∷ xs) = length-shift_from c x xs

shift_from-IsVictim :
    (s c : Cache) (x : Option Place) (xs : List (Option Place))
    → IsVictim s x
    → ((k : ℕ) → IsVictim s (get_or xs k none))
    → (k : ℕ) → IsVictim s (get_or (shift_from c x xs) k none)
unfolding shift_from
shift_from-IsVictim s c x [] hx h zero = hx
shift_from-IsVictim s c x [] hx h (suc k) = λ q e. ground (arith, e)
shift_from-IsVictim s c x (y ∷ ys) hx h zero = λ q e. ground (arith, e)
shift_from-IsVictim s c x (y ∷ ys) hx h (suc k) =
    shift_from-IsVictim s c (compare_lines c x y) ys (compare_lines-IsVictim s c x y hx (h 0))
      (λ j. h (suc j)) k

shift_row-IsVictim :
    (s c : Cache) (xs : List (Option Place))
    → ((k : ℕ) → IsVictim s (get_or xs k none))
    → (k : ℕ) → IsVictim s (get_or (shift_row c xs) k none)
shift_row-IsVictim s c [] h k = h k
shift_row-IsVictim s c (x ∷ xs) h k = shift_from-IsVictim s c x xs (h 0) (λ j. h (suc j)) k

-- The rows, one by one.
row-shift_rows :
    (c : Cache) (rows : List (List (Option Place))) (r : ℕ)
    → get_or (shift_rows c rows) r [] ≡ shift_row c (get_or rows r [])
row-shift_rows c [] r = refl
row-shift_rows c (x ∷ xs) zero = refl
row-shift_rows c (x ∷ xs) (suc r) = row-shift_rows c xs r

length-shift_rows :
    (c : Cache) (rows : List (List (Option Place))) → length (shift_rows c rows) ≡ length rows
length-shift_rows c [] = refl
length-shift_rows c (x ∷ xs) = omega (arith, length-shift_rows c xs)

shift_rows-Offered :
    {s c : Cache} → Offered s c → Offered s (record c { evict_data = shift_rows c c.evict_data })
shift_rows-Offered {s} {c} f = record {
  same_data = f.same_data;
  same_geometry = f.same_geometry;
  grid = record {
    rows = length-shift_rows c c.evict_data ∙ f.grid.rows;
    cols = λ r h. ground (
      arith,
      row-shift_rows c c.evict_data r,
      length-shift_row c (get_or c.evict_data r []),
      f.grid.cols r h,
    );
  };
  victims = λ r k.
      rw (row-shift_rows c c.evict_data r)
        (shift_row-IsVictim s c (get_or c.evict_data r []) (λ j. f.victims r j) k);
}

either_Offered :
    {s x y : Cache} (b : Bool) → Offered s x → Offered s y → Offered s (if b then x else y)
either_Offered true f g = f
either_Offered false f g = g

-- The position of a line of the set.
in_row_sound :
    (c : Cache) (i : ℕ) (xs : List (Option Place))
    → in_row c i xs ≡ true
    → (k : ℕ) × (p : Place) × (k < length xs)
      × (get_or xs k none ≡ some p)
      × (calc_set_index c.geometry (line_at c p).tag ≡ i)
unfolding in_row
in_row_sound c i [] e = cc
in_row_sound c i (none ∷ xs) e =
    let (k, p, lt, at, is) = in_row_sound c i xs e in (suc k, p, omega arith, at, is)
in_row_sound c i (some p ∷ xs) e =
    elim (Bool-cases (calc_set_index c.geometry (line_at c p).tag == i)) [
      | inl here ↦ (0, p, omega arith, refl, ground (arith, here))
      | inr other ↦
          let (k, q, lt, at, is) = in_row_sound c i xs (ground (arith, other)) in
          (suc k, q, omega arith, at, is)
    ]

in_rows_sound :
    (c : Cache) (i : ℕ) (rows : List (List (Option Place)))
    → in_rows c i rows ≡ true
    → (r : ℕ) × (k : ℕ) × (p : Place) × (r < length rows)
      × (k < length (get_or rows r []))
      × (get_or (get_or rows r []) k none ≡ some p)
      × (calc_set_index c.geometry (line_at c p).tag ≡ i)
unfolding in_rows
in_rows_sound c i [] e = cc
in_rows_sound c i (x ∷ xs) e = elim (Bool-cases (in_row c i x)) [
  | inl here ↦
      let (k, p, lt, at, is) = in_row_sound c i x here in (0, k, p, omega arith, lt, at, is)
  | inr other ↦
      let (r, k, p, hr, hk, at, is) = in_rows_sound c i xs (ground (arith, other)) in
      (suc r, k, p, omega arith, hk, at, is)
]

-- In a full set there is a best victim.
abbrev InSet : Cache → ℕ → Option Place → Type 0
InSet c i o = (way : ℕ) × (o ≡ some (i, way)) × (way < c.geometry.way_size)

module _ (c : Cache) (i : ℕ)
    (full : (way : ℕ) → way < c.geometry.way_size → (line_at c (i, way)).valid ≡ true) where
  victim_of-InSet :
      (n way : ℕ) (best : Option Place)
      → way + n ≤ c.geometry.way_size
      → (best ≡ none) ⊎ InSet c i best
      → (0 < n) ⊎ InSet c i best
      → InSet c i (victim_of n c i way best)
  unfolding victim_of compare_lines
  victim_of-InSet zero way best h b (inl n) = absurd (omega arith)
  victim_of-InSet zero way best h b (inr there) = there
  victim_of-InSet (suc n) way best h b some_left =
      let w : way < c.geometry.way_size = omega arith in
      let here : InSet c i (some (i, way)) = (way, refl, w) in
      let better : InSet c i (compare_lines c best (some (i, way))) = (elim b [
        | inl e ↦ rw (e, compare_lines) here
        | inr there ↦ elim (compare_lines-either c best (some (i, way))) [
          | inl is_best ↦ rw is_best there
          | inr is_new ↦ rw is_new here
        ]
      ]) in
      rw (full way w) (
        victim_of-InSet n (way + 1) (compare_lines c best (some (i, way))) (omega arith)
          (inr better) (inr better))

-- What write() sets aside for a full set: valid lines, one of them of the set.
pub record Chosen (s : Cache) (i : ℕ) (c : Cache) : Type 0 where
  pub offered : Offered s c
  pub row : ℕ
  pub col : ℕ
  pub way : ℕ
  pub row_lt : row < s.geometry.line_count_in_super_page
  pub col_lt : col < s.geometry.conf.parallel_io
  pub way_lt : way < s.geometry.way_size
  pub there : evict_at c row col ≡ some (i, way)

module _ {s : Cache} (v : IsCoherent s) (i : ℕ) (hi : i < s.geometry.set_size)
    (full : (way : ℕ) → way < s.geometry.way_size → (line_at s (i, way)).valid ≡ true) where
  -- The lines that are set aside, before one of the set is sure to be there.
  abbrev set_aside : Cache
  set_aside =
      let offered = offer_sets s.geometry.set_size s 0 in
      if s.geometry.conf.evict_super_page
      then record offered { evict_data = shift_rows offered offered.evict_data }
      else offered

  set_aside-Offered : Offered s set_aside
  set_aside-Offered =
      let start : Offered s s = record {
        same_data = refl;
        same_geometry = refl;
        grid = v.grid;
        victims = λ r k q e. ground (arith, v.idle r k);
      } in
      let f = offer_sets-Offered v s.geometry.set_size {c = s} 0 start (omega arith) in
      either_Offered s.geometry.conf.evict_super_page (shift_rows-Offered f) f

  found-Chosen : {c : Cache} → Offered s c → in_rows c i c.evict_data ≡ true → Chosen s i c
  found-Chosen {c} f e =
      let (r, k, (j, way), hr, hk, at, is) = in_rows_sound c i c.evict_data e in
      let (here, valid) = f.victims r k (j, way) at in
      let home = v.home (j, way) here valid in
      let j_is : j ≡ i = ground (arith, home, is, f.same_data, f.same_geometry) in
      let r_lt : r < c.geometry.line_count_in_super_page = omega (arith, f.grid.rows) in
      record {
        offered = f;
        row = r;
        col = k;
        way = way;
        row_lt = ground (arith, r_lt, f.same_geometry);
        col_lt = ground (arith, hk, f.grid.cols r r_lt, f.same_geometry);
        way_lt = here.1;
        there = ground (arith, at, j_is);
      }

  forced-Chosen :
      {c : Cache} (way lca : ℕ)
      → Offered s c
      → way < s.geometry.way_size
      → Chosen s i (
          put_evict c
            (calc_io_position s.geometry lca).0
            (calc_io_position s.geometry lca).1
            (some (i, way)))
  forced-Chosen {c} way lca f hw =
      let at = calc_io_position s.geometry lca in
      let (row_lt, col_lt) = row_col-lt v lca in
      record {
        offered =
            put_evict-Offered v s.geometry lca (some (i, way)) refl f
              (λ q e. ground (arith, hi, hw, full way hw));
        row = at.0;
        col = at.1;
        way = way;
        row_lt = row_lt;
        col_lt = col_lt;
        way_lt = hw;
        there = ground (
          arith,
          evict_at-put_evict f.grid at.0 at.1 (ground (arith, row_lt, f.same_geometry))
              (ground (arith, col_lt, f.same_geometry)) (some (i, way)) at.0 at.1,
        );
      }

  pub choose_victims-Chosen : Chosen s i (choose_victims s i)
  unfolding choose_victims
  choose_victims-Chosen =
      let f = set_aside-Offered in
      elim (Bool-cases (in_rows set_aside i set_aside.evict_data)) [
        | inl e ↦ rw e (found-Chosen f e)
        | inr e ↦
            let (way, at, hw) =
              victim_of-InSet set_aside i
                (λ w h. ground (arith, f.same_data, f.same_geometry, full w)) s.geometry.way_size 0
                none (ground (arith, f.same_geometry)) (inl refl) (inl v.shaped.ways_pos) in
            rw (e, at)
              (forced-Chosen way (line_at set_aside (i, way)).tag f
                (ground (arith, hw, f.same_geometry)))
      ]
