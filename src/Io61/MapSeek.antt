-- ===== src/Io61/MapSeek.antt =====
-- Assign2/io61.c: what reads and seeks in a mapped file give.
use systems_programming.Prelude.{
  ℕ, ◌+◌, ◌-◌, ◌<◌, ◌≤◌, ◌^◌, ◌%◌, ◌≡◌, refl, sym, ap, ◌∙◌, Bool, true, false, Option, none, some,
  List, [], ◌∷◌, if◌then◌else◌, length, arith, min, add64, sub64, signed_leb, signed_ltb,
}
use mathlib.Core.Path.{ap₂, fun_ext}
use systems_programming.Prelude.Links.{Chain}
use systems_programming.Io61.State.{
  rdonly, wronly, rdwr, IoFile, MemMap, Io, System, Outcome, returned, slice, M, ◌>>=◌, ◌>>◌, pure,
  and_then,
}
use systems_programming.Io61.Read.{set_map, read_mapped, io61_read, readc_mapped, io61_readc}
use systems_programming.Io61.Files.{seek_mapped, seek_read, seek_write, io61_seek}
use systems_programming.Io61.Mapped.{map_prevs, map_nexts, InFile, AllInFile, IsMapped}
use systems_programming.Io61.MapRead.{
  find_fd, find_fd-InFile, io61_read-at, io61_readc-at, seek_read-at,
}

-- A node whose offset is set.
abbrev pub moved : {World : Type 0} → ℕ → ℕ → Io World → Io World
moved n l s = set_map n (record (s.maps n) { localoffset = l }) s

-- The character that a read of one byte got.
abbrev pub head_of : Option (List ℕ) → Option ℕ
head_of none = none
head_of (some []) = none
head_of (some (c ∷ cs)) = some c

module _ {World : Type 0} (n l : ℕ) (s : Io World) where
  Chain-moved :
      (p : ℕ) (nodes : List ℕ)
      → Chain (map_prevs s.maps) (map_nexts s.maps) p nodes
      → Chain (map_prevs (moved n l s).maps) (map_nexts (moved n l s).maps) p nodes
  Chain-moved p [] c = tt
  Chain-moved p (m ∷ ms) c = (c.0, ground (arith, c.1), ground (arith, c.2), Chain-moved m ms c.3)

  AllInFile-moved :
      (nodes : List ℕ)
      → l ≤ (s.maps n).filesize
      → AllInFile s.maps nodes
      → AllInFile (moved n l s).maps nodes
  AllInFile-moved [] h a = tt
  AllInFile-moved (m ∷ ms) h a = (ground (arith, a.0.0, a.0.1), AllInFile-moved ms h a.1)

  pub IsMapped-moved :
      (nodes : List ℕ) → l ≤ (s.maps n).filesize → IsMapped s nodes → IsMapped (moved n l s) nodes
  IsMapped-moved nodes h i = record {
    first = i.first;
    chain = Chain-moved 0 nodes i.chain;
    distinct = i.distinct;
    in_file = AllInFile-moved nodes h i.in_file;
  }

  find_fd-moved :
      (fd : ℕ) (nodes : List ℕ) → find_fd (moved n l s).maps fd nodes ≡ find_fd s.maps fd nodes
  find_fd-moved fd [] = refl
  find_fd-moved fd (m ∷ ms) = ground (arith, find_fd-moved fd ms)

-- The count that `io61_read` computes, for an offset in the file.
nread-available :
    (l sz size : ℕ)
    → l ≤ size
    → size < 2 ^ 62
    → sz < 2 ^ 62
    → (if signed_leb (add64 l sz) size then sz else sub64 size l) ≡ min sz (size - l)
nread-available l sz size h k m = ground (arith, h, k, m)

-- How many bytes a read of `sz` gets from an offset.
abbrev pub available : MemMap → ℕ → ℕ → ℕ
available m pos sz = min sz (m.filesize - pos)

module _ {World : Type 0} (n : ℕ) (s : Io World) (i : InFile (s.maps n)) where
  read_mapped-gets :
      (sz : ℕ)
      → sz < 2 ^ 62
      → let m = s.maps n in
        read_mapped n sz s
        ≡ returned
            (some (slice m.mapped_file m.localoffset (available m m.localoffset sz)))
            (moved n (m.localoffset + available m m.localoffset sz) s)
  unfolding read_mapped
  read_mapped-gets sz small =
      let m = s.maps n in
      let count = nread-available m.localoffset sz m.filesize i.0 i.1 small in
      ap₂ (λ k l. returned (some (slice m.mapped_file m.localoffset k)) (moved n l s)) count
        (ap (add64 m.localoffset) count ∙ omega (arith, i.0, i.1))

  stays : moved n ((s.maps n).localoffset + 0) s ≡ s
  stays = ap (λ maps. record s { maps = maps }) (fun_ext (λ j. ground arith))

  readc_mapped-read_mapped : readc_mapped n s ≡ (read_mapped n 1 >>= (λ r. pure (head_of r))) s
  unfolding readc_mapped
  readc_mapped-read_mapped =
      let m = s.maps n in
      go (signed_ltb m.localoffset m.filesize) refl
      ∙ sym (ap (λ o. and_then o (λ r. pure (head_of r))) (read_mapped-gets 1 (omega arith)))
    where
      go :
          (b : Bool)
          → signed_ltb (s.maps n).localoffset (s.maps n).filesize ≡ b
          → readc_mapped n s
            ≡ returned
                (head_of (
                  some (
                    slice
                      (s.maps n).mapped_file
                      (s.maps n).localoffset
                      (available (s.maps n) (s.maps n).localoffset 1))))
                (moved n ((s.maps n).localoffset + available (s.maps n) (s.maps n).localoffset 1) s)
      go true e =
          let one : available (s.maps n) (s.maps n).localoffset 1 ≡ 1 =
            ground (arith, i.0, i.1, e) in
          let plain : (s.maps n).localoffset % 2 ^ 64 ≡ (s.maps n).localoffset =
            omega (arith, i.0, i.1) in
          rw (e, one)
            (ap₂ (λ x l. returned (some ((s.maps n).mapped_file x)) (moved n l s)) (sym plain)
              (omega (arith, i.0, i.1)))
      go false e =
          let zero_left : available (s.maps n) (s.maps n).localoffset 1 ≡ 0 =
            ground (arith, i.0, i.1, e) in
          rw (e, zero_left) (ap (returned none) (sym stays))

module _ {World : Type 0} (sys : System World) (fuel : ℕ) (f : IoFile) (s : Io World)
    (nodes : List ℕ) (n : ℕ) (mapped : IsMapped s nodes) (enough : length nodes ≤ fuel)
    (at : find_fd s.maps f.fd nodes ≡ some n) where
  -- In a file that is mapped at a node of the list, with the list in order, io61_readc is io61_read
  -- of one byte: the same character, or EOF where that read gets nothing, and the same state after
  -- it.
  pub io61_readc-io61_read :
      io61_readc sys fuel f s ≡ (io61_read sys fuel f 1 >>= (λ r. pure (head_of r))) s
  io61_readc-io61_read =
      io61_readc-at sys fuel f s nodes n mapped.first mapped.chain enough at
      ∙ readc_mapped-read_mapped n s (find_fd-InFile s.maps f.fd n nodes mapped.in_file at)
      ∙ ap (λ o. and_then o (λ r. pure (head_of r)))
          (sym (io61_read-at sys fuel f s nodes n mapped.first mapped.chain enough at 1))

  io61_seek-at : (pos : ℕ) → f.mode ≡ rdonly → io61_seek sys fuel f pos s ≡ seek_mapped pos n s
  unfolding io61_seek
  io61_seek-at pos e =
      ap
        (λ m.
          (elim m as (λ _. M World Bool) [
            | rdonly ↦ seek_read sys fuel f pos
            | wronly ↦ seek_write sys f pos
            | rdwr ↦ seek_write sys f pos
          ])
            s)
        e
      ∙ seek_read-at sys fuel f s nodes n mapped.first mapped.chain enough at pos

  seek_mapped-inside :
      (pos : ℕ)
      → pos < (s.maps n).filesize
      → InFile (s.maps n)
      → seek_mapped pos n s ≡ returned true (moved n pos s)
  unfolding seek_mapped
  seek_mapped-inside pos h i = ground (arith, h, i.1)

  -- A read from another offset of the node.
  read-moved :
      (l sz : ℕ)
      → l ≤ (s.maps n).filesize
      → sz < 2 ^ 62
      → let m = s.maps n in
        io61_read sys fuel f sz (moved n l s)
        ≡ returned
            (some (slice m.mapped_file l (available m l sz)))
            (moved n (l + available m l sz) (moved n l s))
  read-moved l sz h small =
      let s1 = moved n l s in
      let mapped1 = IsMapped-moved n l s nodes h mapped in
      let at1 = find_fd-moved n l s f.fd nodes ∙ at in
      let node : s1.maps n ≡ record (s.maps n) { localoffset = l } = ground arith in
      let F : MemMap → Outcome World (Option (List ℕ)) = (λ m.
        returned (some (slice m.mapped_file m.localoffset (available m m.localoffset sz)))
          (moved n (m.localoffset + available m m.localoffset sz) s1)) in
      io61_read-at sys fuel f s1 nodes n mapped1.first mapped1.chain enough at1 sz
      ∙ read_mapped-gets n s1 (find_fd-InFile s1.maps f.fd n nodes mapped1.in_file at1) sz small
      ∙ ap F node

  -- A seek to an offset inside a file that was opened for reading and is mapped at a node of the
  -- list, with the list in order, and then a read of less than 2^62 bytes: the bytes of the file from
  -- that offset on, as many as are asked for or as the file has; the offset is behind them, and the
  -- list is in order.
  pub io61_seek-io61_read :
      (pos sz : ℕ)
      → f.mode ≡ rdonly
      → pos < (s.maps n).filesize
      → sz < 2 ^ 62
      → let m = s.maps n in
        (s' : Io World) × ((io61_seek sys fuel f pos >> io61_read sys fuel f sz) s
          ≡ returned (some (slice m.mapped_file pos (available m pos sz))) s')
        × ((s'.maps n).localoffset ≡ pos + available m pos sz)
        × IsMapped s' nodes
  io61_seek-io61_read pos sz e h small =
      let i = find_fd-InFile s.maps f.fd n nodes mapped.in_file at in
      let s1 = moved n pos s in
      let past = pos + available (s.maps n) pos sz in
      (
        moved n past s1,
        ap (λ o. and_then o (λ _. io61_read sys fuel f sz))
              (io61_seek-at pos e ∙ seek_mapped-inside pos h i)
            ∙ read-moved pos sz (omega (arith, h)) small,
        ground arith,
        IsMapped-moved n past s1 nodes (ground (arith, h))
            (IsMapped-moved n pos s nodes (omega (arith, h)) mapped),
      )

  seek_mapped-negative :
      (pos : ℕ)
      → 2 ^ 63 ≤ pos
      → pos < 2 ^ 64
      → InFile (s.maps n)
      → seek_mapped pos n s ≡ returned true (moved n pos s)
  unfolding seek_mapped
  seek_mapped-negative pos lo hi i = ground (arith, lo, hi, i.1)

  readc_mapped-negative :
      (pos : ℕ)
      → 2 ^ 63 ≤ pos
      → pos < 2 ^ 64
      → InFile (s.maps n)
      → (s' : Io World) × (readc_mapped n (moved n pos s)
          ≡ returned (some ((s.maps n).mapped_file pos)) s')
  unfolding readc_mapped
  readc_mapped-negative pos lo hi i =
      let s1 = moved n pos s in
      let node : s1.maps n ≡ record (s.maps n) { localoffset = pos } = ground arith in
      let before : signed_ltb pos (s.maps n).filesize ≡ true = ground (arith, lo, hi, i.1) in
      let F : MemMap → Outcome World (Option ℕ) = (λ m.
        if signed_ltb m.localoffset m.filesize
        then returned (some (m.mapped_file m.localoffset))
            (set_map n (record m { localoffset = add64 m.localoffset 1 }) s1)
        else returned none s1) in
      (set_map n (record (s.maps n) { localoffset = add64 pos 1 }) s1, ap F node ∙ rw before refl)

  -- A seek to a negative offset of such a file succeeds, and the next character is read from before
  -- the mapping.
  pub io61_seek-negative :
      (pos : ℕ)
      → f.mode ≡ rdonly
      → 2 ^ 63 ≤ pos
      → pos < 2 ^ 64
      → (s' : Io World) × ((io61_seek sys fuel f pos >> io61_readc sys fuel f) s
          ≡ returned (some ((s.maps n).mapped_file pos)) s')
  io61_seek-negative pos e lo hi =
      let i = find_fd-InFile s.maps f.fd n nodes mapped.in_file at in
      let s1 = moved n pos s in
      let (s', reads) = readc_mapped-negative pos lo hi i in
      (
        s',
        ap (λ o. and_then o (λ _. io61_readc sys fuel f))
              (io61_seek-at pos e ∙ seek_mapped-negative pos lo hi i)
            ∙ io61_readc-at sys fuel f s1 nodes n mapped.first
                (Chain-moved n pos s 0 nodes mapped.chain) enough
                (find_fd-moved n pos s f.fd nodes ∙ at)
            ∙ reads,
      )
