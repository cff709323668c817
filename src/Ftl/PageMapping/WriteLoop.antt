-- ===== src/Ftl/PageMapping/WriteLoop.antt =====
-- ftl/page_mapping.cc: the second loop of writeInternal(), which writes the selected units.
use simple_ssd.Base.{
  ℕ, zero, suc, ◌+◌, ◌≤◌, ◌<◌, ◌≡◌, ◌≢◌, ◌∙◌, inl, inr, refl, Bool, true, false, not, ◌&&◌, List,
  none, some, arith, ltb, ◌==◌, set, ℕ_discrete, Bool-cases, max,
}
use simple_ssd.Base.Result.{Result, ok, at-eq-get_or}
use simple_ssd.Base.Map
use simple_ssd.Base.Map.{find, find-insert}
use simple_ssd.Util.Bitset.{Bitset}
use simple_ssd.Ftl.Block.{Block, next_write_page_index_at}
use simple_ssd.Ftl.Block.Write.{write-Written}
use simple_ssd.Ftl.PageMapping.State.{PageMapping, Request, Clock, Hardware}
use simple_ssd.Ftl.PageMapping.Access.{selected, write_io, write_unit, write_units}
use simple_ssd.Ftl.PageMapping.Consistent.{IsConsistent, unit_of}
use simple_ssd.Ftl.PageMapping.Attach.{attached-IsConsistent, blocks_after, table_after, unit_after}
use simple_ssd.Ftl.PageMapping.Detach.{IsConsistent-ext}

-- The selected units of `l` from `n` on, which are still to be written.
abbrev pub away_from : PageMapping → Bitset → ℕ → ℕ → ℕ → ℕ → Bool
away_from s flag l n l' i = l == l' && (not (ltb i n) && (ltb i s.bitset_size && selected s flag i))

-- The same block indices are in use.
pub record SameKeys (bs cs : List (ℕ × Block)) : Type 0 where
  pub absent : (k : ℕ) → find k bs ≡ none → find k cs ≡ none
  pub present : (k : ℕ) (b : Block) → find k bs ≡ some b → (c : Block) × (find k cs ≡ some c)

-- What the loop, with the units below `n` done, makes of a state whose mapping of `l` is `mapping`.
pub record Wrote {D : Type 0} (s : PageMapping) (flag : Bitset) (l key : ℕ) (mapping : List (ℕ × ℕ))
    (n : ℕ) (r : Result (PageMapping × Clock D)) : Type 0 where
  pub blocks : List (ℕ × Block)
  pub table : List (ℕ × List (ℕ × ℕ))
  pub clock : Clock D
  pub result : r ≡ ok (record s { blocks = blocks; table = table }, clock)
  pub consistent : IsConsistent (record s { blocks = blocks; table = table }) (away_from s flag l n)
  pub after : List (ℕ × ℕ)
  pub mapped : find l table ≡ some after
  pub block : Block
  pub found : find key blocks ≡ some block
  pub room : (j : ℕ) → n ≤ j → next_write_page_index_at block j < s.param.pages_in_block
  pub placed : (j : ℕ) → j < n → selected s flag j ≡ true → (unit_of after j).0 ≡ key
  pub kept : (j : ℕ) → selected s flag j ≡ false → unit_of after j ≡ unit_of mapping j
  pub others : (l' : ℕ) → l' ≢ l → find l' table ≡ find l' s.table
  pub same : SameKeys s.blocks blocks

module _ {D : Type 0} (hw : Hardware D) {s : PageMapping} (req : Request) (send : Bool)
    (key i tick : ℕ) (c : Clock D) (v : IsConsistent s (away_from s req.io_flag req.lpn i))
    (mapping : List (ℕ × ℕ)) (mapped : find req.lpn s.table ≡ some mapping) (b : Block)
    (found : find key s.blocks ≡ some b)
    (room : (j : ℕ) → i ≤ j → next_write_page_index_at b j < s.param.pages_in_block)
    (placed : (j : ℕ) → j < i → selected s req.io_flag j ≡ true → (unit_of mapping j).0 ≡ key)
    (hi : i < s.bitset_size) where
  unit_skipped :
      selected s req.io_flag i ≡ false
      → Wrote s req.io_flag req.lpn key mapping (i + 1) (write_unit hw s req send key i tick c)
  unfolding write_unit
  unit_skipped e = record {
    blocks = s.blocks;
    table = s.table;
    clock = c;
    result = rw e;
    consistent =
        IsConsistent-ext (away_from s req.io_flag req.lpn (i + 1)) (λ l' j. ground arith) v;
    after = mapping;
    mapped = mapped;
    block = b;
    found = found;
    room = λ j h. room j (omega arith);
    placed = λ j h sel. elim (ℕ_discrete j i) [
      | yes same ↦ absurd (ground arith)
      | no ne ↦ placed j (omega arith) sel
    ];
    kept = λ j h. refl;
    others = λ l' ne. refl;
    same = record { absent = λ k h. h; present = λ k d h. (d, h) };
  }

  unit_written :
      selected s req.io_flag i ≡ true
      → Wrote s req.io_flag req.lpn key mapping (i + 1) (write_unit hw s req send key i tick c)
  unfolding write_unit
  unit_written e =
      let l = req.lpn in
      let p = next_write_page_index_at b i in
      let (sized, key_lt) = v.blocks_ok key b found in
      let hp : p < s.param.pages_in_block = room i (omega arith) in
      let in_pages : p < b.page_count = omega (arith, sized.pages) in
      let in_units : i < b.io_unit_in_page = omega (arith, sized.units, v.units_le) in
      let unused = sized.valid.ahead_invalid p i in_pages in_units (omega arith) in
      let erased = sized.valid.ahead_erased p i in_pages in_units (omega arith) in
      let (d, run, w) = write-Written sized.valid in_pages in_units l tick erased (omega arith) in
      let gone : away_from s req.io_flag l i l i ≡ true = ground arith in
      let old = unit_of mapping i in
      let at_i = at-eq-get_or mapping i (0, 0) (omega (arith, v.table_ok l mapping mapped)) in
      let done = write_io hw s req send old key p i (record { tick = tick; device = c.device }) in
      let blocks' =
        λ (j : ℕ). blocks_after v l mapping mapped i hi gone key p tick b d found hp unused w j in
      let table' =
        λ (j : ℕ). table_after v l mapping mapped i hi gone key p tick b d found hp unused w j in
      let unit' =
        λ (j : ℕ). unit_after v l mapping mapped i hi gone key p tick b d found hp unused w j in
      record {
        blocks = Map.insert key d s.blocks;
        table = Map.insert l (set mapping i (key, p)) s.table;
        clock = record { tick = max c.tick done.tick; device = done.device };
        result = rw (e, found, mapped, at_i, run);
        consistent =
            IsConsistent-ext (away_from s req.io_flag l (i + 1)) (λ l' j. ground arith)
              (attached-IsConsistent v l mapping mapped i hi gone key p tick b d found hp unused w);
        after = set mapping i (key, p);
        mapped = ground (arith, table' l);
        block = d;
        found = ground (arith, blocks' key);
        room = λ j h. ground (arith, room j, w.nexts j);
        placed = λ j h sel. ground (arith, placed j, unit' j);
        kept = λ j h. ground (arith, unit' j);
        others = λ l' ne. ground (arith, table' l');
        same = record {
          absent = λ k h. ground (arith, blocks' k);
          present = λ k x h. elim (ℕ_discrete key k) [
            | yes q ↦ (d, ground (arith, blocks' k))
            | no q ↦ (x, ground (arith, blocks' k))
          ];
        };
      }

  write_unit-Wrote :
      Wrote s req.io_flag req.lpn key mapping (i + 1) (write_unit hw s req send key i tick c)
  write_unit-Wrote = elim (Bool-cases (selected s req.io_flag i)) [
    | inl e ↦ unit_written e
    | inr e ↦ unit_skipped e
  ]

-- The loop writes the selected units from `i` on, and never panics.
pub write_units-Wrote :
    {D : Type 0} (hw : Hardware D) (n : ℕ) {s : PageMapping} (req : Request) (send : Bool)
    (key i tick : ℕ) (c : Clock D) (mapping : List (ℕ × ℕ)) (b : Block)
    → IsConsistent s (away_from s req.io_flag req.lpn i)
    → find req.lpn s.table ≡ some mapping
    → find key s.blocks ≡ some b
    → ((j : ℕ) → i ≤ j → next_write_page_index_at b j < s.param.pages_in_block)
    → ((j : ℕ) → j < i → selected s req.io_flag j ≡ true → (unit_of mapping j).0 ≡ key)
    → i + n ≡ s.bitset_size
    → Wrote s req.io_flag req.lpn key mapping s.bitset_size
        (write_units hw n i s req send key tick c)
unfolding write_units
write_units-Wrote hw zero {s} req send key i tick c mapping b v mapped found room placed e =
    record {
      blocks = s.blocks;
      table = s.table;
      clock = c;
      result = refl;
      consistent =
          IsConsistent-ext (away_from s req.io_flag req.lpn s.bitset_size) (λ l' j. ground arith) v;
      after = mapping;
      mapped = mapped;
      block = b;
      found = found;
      room = λ j h. room j (omega arith);
      placed = λ j h. placed j (omega arith);
      kept = λ j h. refl;
      others = λ l' ne. refl;
      same = record { absent = λ k h. h; present = λ k d h. (d, h) };
    }
write_units-Wrote hw (suc n) {s} req send key i tick c mapping b v mapped found room placed e =
    let one =
      write_unit-Wrote hw req send key i tick c v mapping mapped b found room placed
        (omega arith) in
    let rest =
      write_units-Wrote hw n {s = record s { blocks = one.blocks; table = one.table }} req send key
        (i + 1) tick one.clock one.after one.block one.consistent one.mapped one.found one.room
        one.placed (omega arith) in
    record {
      blocks = rest.blocks;
      table = rest.table;
      clock = rest.clock;
      result = rw one.result rest.result;
      consistent = rest.consistent;
      after = rest.after;
      mapped = rest.mapped;
      block = rest.block;
      found = rest.found;
      room = rest.room;
      placed = rest.placed;
      kept = λ j h. rest.kept j h ∙ one.kept j h;
      others = λ l' ne. rest.others l' ne ∙ one.others l' ne;
      same = record {
        absent = λ k h. rest.same.absent k (one.same.absent k h);
        present =
            λ k d h. rest.same.present k (one.same.present k d h).0 (one.same.present k d h).1;
      };
    }
