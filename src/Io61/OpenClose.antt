-- ===== src/Io61/OpenClose.antt =====
-- Assign2/io61.c: opening and closing keep the list of mapped files.
use systems_programming.Prelude.{
  ℕ, ◌<◌, ◌≤◌, ◌^◌, ◌≡◌, ◌≢◌, ◌⊎◌, refl, sym, ap, ◌∙◌, false, Option, none, some, List, [], ◌∷◌,
  ◌++◌, ◌==◌, if◌then◌else◌, length, arith, inl, inr, Bool-cases,
}
use mathlib.Core.Path.{subst, ap₂}
use systems_programming.Prelude.Links.{head_or_null, NotIn, Chain, Chain-agree}
use systems_programming.Io61.State.{
  rdonly, wronly, rdwr, IoFile, MemMap, Io, System, Outcome, returned, exits, aborts, null_access,
  endless, M, ◌>>=◌, ◌>>◌, pure, modify, call, or_exit, and_then,
}
use systems_programming.Io61.Ensures.{Ensures, Ensures-and_then}
use systems_programming.Io61.Maps.{insert_first, remove_mmap, search_in_list}
use systems_programming.Io61.Read.{set_map, found}
use systems_programming.Io61.Write.{io61_flush}
use systems_programming.Io61.Files.{
  io61_filesize, map_file, open_read, io61_fdopen, unmap, io61_close,
}
use systems_programming.Io61.Mapped.{
  map_prevs, map_nexts, AllInFile, IsMapped, insert_first-IsMapped, insert_first-SameFile,
}
use systems_programming.Io61.Removed.{remove_mmap-IsMapped}
use systems_programming.Io61.MapRead.{find_fd, search_in_list-find_fd}

module _ {World : Type 0} (n : ℕ) (m : MemMap) (s : Io World) where
  AllInFile-fresh :
      (nodes : List ℕ)
      → NotIn n nodes
      → AllInFile s.maps nodes
      → AllInFile (set_map n m s).maps nodes
  AllInFile-fresh [] ni a = tt
  AllInFile-fresh (b ∷ bs) ni a = (ground (arith, ni.0, a.0.0, a.0.1), AllInFile-fresh bs ni.1 a.1)

  -- A node outside the list is written.
  IsMapped-fresh :
      (nodes : List ℕ) → NotIn n nodes → IsMapped s nodes → IsMapped (set_map n m s) nodes
  IsMapped-fresh nodes ni i = record {
    first = i.first;
    chain =
        Chain-agree (map_prevs s.maps) (map_nexts s.maps) (map_prevs (set_map n m s).maps)
          (map_nexts (set_map n m s).maps) 0 nodes n n n (λ b bn _. ground arith)
          (λ b bn _. ground arith) ni ni ni i.chain;
    distinct = i.distinct;
    in_file = AllInFile-fresh nodes ni i.in_file;
  }

module _ {World : Type 0} (sys : System World) (fd : ℕ) where
  abbrev pub MmapFails : Type 0
  MmapFails = (size : ℕ) × (w : World) × ((sys.mmap fd size w).0 ≡ none)

  -- The new node is at the front of the list, is found for the file, and stands at its start.
  abbrev pub AtFront : {A : Type 0} → ℕ → ℕ → List ℕ → A → Io World → Type 0
  AtFront n size nodes a s' =
      IsMapped s' (n ∷ nodes)
      × (find_fd s'.maps fd (n ∷ nodes) ≡ some n)
      × ((s'.maps n).filesize ≡ size)
      × ((s'.maps n).localoffset ≡ 0)

  inserted-AtFront :
      (n size : ℕ) (mapped : ℕ → ℕ) (nodes : List ℕ) (s : Io World)
      → IsMapped s nodes
      → n ≢ 0
      → NotIn n nodes
      → size < 2 ^ 62
      → AtFront n size nodes tt (
          insert_first n (
            set_map n
              (record (s.maps n) {
                mapped_file = mapped;
                filesize = size;
                localoffset = 0;
                fd = fd;
              })
              s))
  inserted-AtFront n size mapped nodes s i nz ni small =
      let m : MemMap = record (s.maps n) {
        mapped_file = mapped;
        filesize = size;
        localoffset = 0;
        fd = fd;
      } in
      let t = set_map n m s in
      let same = insert_first-SameFile n t n in
      (
        insert_first-IsMapped n t nodes (IsMapped-fresh n m s nodes ni i) nz ni
            (ground (arith, small)),
        ground (arith, same.2),
        ground (arith, same.1),
        ground (arith, same.0),
      )

  map_file-AtFront :
      (f : IoFile) (n size : ℕ) (nodes : List ℕ) (s : Io World)
      → f.fd ≡ fd
      → IsMapped s nodes
      → n ≢ 0
      → NotIn n nodes
      → size < 2 ^ 62
      → Ensures (AtFront n size nodes) MmapFails (map_file sys f n size s)
  unfolding map_file
  map_file-AtFront f n size nodes s e i nz ni small = go (sys.mmap f.fd size s.world).0 refl
    where
      t : Io World
      t = record s { world = (sys.mmap f.fd size s.world).1 }

      i' : IsMapped t nodes
      i' = record { first = i.first; chain = i.chain; distinct = i.distinct; in_file = i.in_file }

      go :
          (o : Option (ℕ → ℕ))
          → (sys.mmap f.fd size s.world).0 ≡ o
          → Ensures (AtFront n size nodes) MmapFails (
              and_then (or_exit o t) (λ mapped.
                modify (λ s.
                  set_map n
                    (record (s.maps n) {
                      mapped_file = mapped;
                      filesize = size;
                      localoffset = 0;
                      fd = f.fd;
                    })
                    s)
                >> modify (insert_first n)))
      go none o = (size, s.world, ap (λ x. (sys.mmap x size s.world).0) (sym e) ∙ o)
      go (some mapped) o =
          subst
            (λ x. AtFront n size nodes tt (
              insert_first n (
                set_map n
                  (record (t.maps n) {
                    mapped_file = mapped;
                    filesize = size;
                    localoffset = 0;
                    fd = x;
                  })
                  t)))
            (sym e) (inserted-AtFront n size mapped nodes t i' nz ni small)

  -- Opening a regular file for reading, with a new node from malloc: the node goes to the front of the
  -- list of mapped files, is the one found for the descriptor, and stands at the start of the file;
  -- or the program exits, and then some mmap of the file fails.
  pub io61_fdopen-AtFront :
      (size : ℕ) (nodes : List ℕ) (s : Io World)
      → let (n, w) = sys.new_node s.world in
        IsMapped s nodes
        → n ≢ 0
        → NotIn n nodes
        → sys.regular_size fd w ≡ some size
        → size < 2 ^ 62
        → Ensures (AtFront n size nodes) MmapFails (io61_fdopen sys fd rdonly s)
  unfolding io61_fdopen open_read io61_filesize
  io61_fdopen-AtFront size nodes s i nz ni regular small =
      let (n, w) = sys.new_node s.world in
      let f : IoFile = record { fd = fd; mode = rdonly } in
      let t : Io World = record s { world = w } in
      rw regular (
        Ensures-and_then (AtFront n size nodes) MmapFails (AtFront n size nodes)
          (map_file sys f n size t) _
          (map_file-AtFront f n size nodes t refl
            (record {
              first = i.first;
              chain = i.chain;
              distinct = i.distinct;
              in_file = i.in_file;
            })
            nz ni small)
          (λ a s' at. at))

find_fd-split :
    (maps : ℕ → MemMap) (fd n : ℕ) (nodes : List ℕ)
    → find_fd maps fd nodes ≡ some n
    → (xs : List ℕ) × (ys : List ℕ) × (nodes ≡ xs ++ n ∷ ys)
find_fd-split maps fd n [] e = absurd (cc)
find_fd-split maps fd n (m ∷ ms) e = elim (Bool-cases ((maps m).fd == fd)) [
  | inl t ↦ let same : some m ≡ some n = rw t at e in ([], ms, ap (λ x. x ∷ ms) (cc))
  | inr t ↦
      let (xs, ys, split) = find_fd-split maps fd n ms (rw t at e) in
      (m ∷ xs, ys, ap (λ r. m ∷ r) split)
]

module _ {World : Type 0} (sys : System World) (fuel : ℕ) (f : IoFile) (s : Io World)
    (nodes : List ℕ) (mapped : IsMapped s nodes) (enough : length nodes ≤ fuel) where
  nonzero : (m : ℕ) (ms : List ℕ) → nodes ≡ m ∷ ms → (m == 0) ≡ false
  nonzero m ms e =
      let c = subst (Chain (map_prevs s.maps) (map_nexts s.maps) 0) e mapped.chain in
      ground (arith, c.0)

  -- What closing a file that is not written comes to.
  abbrev pub Closed : Outcome World ℕ → Type 0
  Closed (returned r s') =
      ((nodes ≡ []) × IsMapped s' [])
      ⊎ ((xs : List ℕ) × (n : ℕ) × (ys : List ℕ) × (find_fd s.maps f.fd nodes ≡ some n)
          × (nodes ≡ xs ++ n ∷ ys)
          × IsMapped s' (xs ++ ys))
  Closed null_access = (nodes ≢ []) × (find_fd s.maps f.fd nodes ≡ none)
  Closed exits = ⊥
  Closed aborts = ⊥
  Closed endless = ⊥

  -- The call of `unmap`, with the search carried out.
  abbrev unmapped : ℕ → Option ℕ → Outcome World (Unit {0})
  unmapped h o =
      if h == 0 then returned tt s else (found (some o) >>= (λ n. modify (remove_mmap n))) s

  unmap-lem : unmap fuel f s ≡ unmapped (head_or_null nodes) (find_fd s.maps f.fd nodes)
  unfolding unmap
  unmap-lem =
      ap₂ (λ h o. if h == 0 then returned tt s else (found o >>= (λ n. modify (remove_mmap n))) s)
        mapped.first
        (ap (search_in_list fuel s.maps f.fd) mapped.first
          ∙ search_in_list-find_fd fuel s.maps f.fd 0 nodes mapped.chain enough)

  close-rdonly :
      f.mode ≡ rdonly
      → io61_close sys fuel f s ≡ and_then (unmap fuel f s) (λ _. call (sys.close f.fd))
  unfolding io61_close
  close-rdonly e =
      ap
        (λ m.
          and_then
            ((elim m as (λ _. M World (Unit {0})) [
              | wronly ↦ io61_flush sys f >>= (λ r. pure tt)
              | rdonly ↦ pure tt
              | rdwr ↦ pure tt
            ])
              s)
            (λ _. unmap fuel f >> call (sys.close f.fd)))
        e

  closing :
      (ns : List ℕ) (o : Option ℕ)
      → nodes ≡ ns
      → find_fd s.maps f.fd nodes ≡ o
      → Closed (and_then (unmapped (head_or_null ns) o) (λ _. call (sys.close f.fd)))
  unfolding found
  closing [] o e at =
      inl (e, record { first = mapped'.first; chain = tt; distinct = tt; in_file = tt })
    where
      mapped' : IsMapped s []
      mapped' = subst (IsMapped s) e mapped
  closing (m ∷ ms) none e at = rw (nonzero m ms e) ((λ n. cc), at)
  closing (m ∷ ms) (some n) e at =
      let (xs, ys, split) = find_fd-split s.maps f.fd n nodes at in
      let i = remove_mmap-IsMapped n s xs ys (subst (IsMapped s) split mapped) in
      rw (nonzero m ms e) (
        inr (
          xs,
          n,
          ys,
          at,
          split,
          record { first = i.first; chain = i.chain; distinct = i.distinct; in_file = i.in_file },
        ))

  -- Closing a file that was opened for reading: with no file mapped the list stays empty; the node
  -- of a mapped file is taken out of the list; and where files are mapped but this one is not, the
  -- program goes through NULL.
  pub io61_close-Closed : f.mode ≡ rdonly → Closed (io61_close sys fuel f s)
  io61_close-Closed e =
      subst Closed
        (sym (close-rdonly e ∙ ap (λ o. and_then o (λ _. call (sys.close f.fd))) unmap-lem))
        (closing nodes (find_fd s.maps f.fd nodes) refl refl)
