-- ===== src/Allim/Setting.antt =====
-- src/allim/lib/allib.c: what `allimPointSet` sets, `allimPointGet` gets.
use natc.Base.{ℕ, ◌<◌, ◌≡◌, ap, ◌∙◌, Bool, true, false, lt→ltb, arith, none, some, Bytes, length}
use natc.Allim.State.{success, max_threads, max_length, Acp, AcpLaws, Answers, World, Point, write}
use natc.Allim.Shared.{Reply, locked_call, get_shared_memory, release_shared_memory, set_lock}
use natc.Allim.Points.{point_set, set_point, point_get, get_point}

-- Attaching and detaching leave the shared record alone.
get_shared_memory-point : (c : Answers) (w : World) → (get_shared_memory c w).1.point ≡ w.point
unfolding get_shared_memory write
get_shared_memory-point c w = ground arith

release_shared_memory-point :
    (c : Answers) (w : World) → (release_shared_memory c w).1.point ≡ w.point
unfolding release_shared_memory
release_shared_memory-point c w = ground arith

-- The shared record with the lock as given.
abbrev pub with_lock : Bool → Point → Point
with_lock b p = record p { lock = b }

-- A call that succeeds gives what its work gives on the shared record under the lock.
module _ {A : Type 0} (c : Answers) (before : A) (body : World → Reply A) (w : World) where
  pub entered : World
  entered = set_lock true (get_shared_memory c w).1

  pub locked_call-success :
      (locked_call c before body w).0 ≡ success
      → ((body entered).result ≡ success)
        × ((locked_call c before body w).1 ≡ (body entered).out)
        × ((locked_call c before body w).2.point ≡ with_lock false (body entered).world.point)
  unfolding locked_call entered
  locked_call-success e =
      ground (arith, release_shared_memory-point c (set_lock false (body entered).world))

  pub entered-point : entered.point ≡ with_lock true w.point
  unfolding entered
  entered-point = ap (with_lock true) (get_shared_memory-point c w)

module _ (acp : Acp) (laws : AcpLaws acp) (file id : Bytes) (count err_no : ℕ) where
  -- A file and an identifier that fit and are not empty are stored whole.
  set_point-stores :
      (w : World)
      → 0 < length file
      → length file < acp.path_max
      → 0 < length id
      → length id < max_length
      → let p = (set_point acp file id count err_no w).world.point in
        (p.file ≡ file)
        × (p.id ≡ id)
        × (p.count ≡ count)
        × (p.err_no ≡ err_no)
        × ((i : ℕ) → i < max_threads → p.hit_counts i ≡ count)
  unfolding set_point
  set_point-stores w lo hi lo' hi' =
      let file_given = lt→ltb 0 _ (laws.len_pos file acp.path_max (omega arith) lo) in
      let id_given = lt→ltb 0 _ (laws.len_pos id max_length (omega arith) lo') in
      (
        ground (arith, file_given, laws.cpy_fits acp.path_max file hi),
        ground (arith, id_given, laws.cpy_fits max_length id hi'),
        ground arith,
        ground arith,
        λ i lt. ground arith,
      )

  get_point-stored :
      (w : World)
      → w.point.file ≡ file
      → w.point.id ≡ id
      → w.point.count ≡ count
      → w.point.err_no ≡ err_no
      → length file < acp.path_max
      → length id < max_length
      → (get_point acp w).out ≡ some (file, id, count, err_no)
  unfolding get_point
  get_point-stored w f d n e hi hi' =
      ground (arith, laws.cpy_fits acp.path_max file hi, laws.cpy_fits max_length id hi')

  -- What one call sets the next call gets, in any process that has the same shared record and whatever
  -- its key, its attachments and its log are: if both calls succeed, and the file and the identifier are
  -- not empty and fit their fields, `allimPointGet` after `allimPointSet` gives the same four values,
  -- and every slot counts from the set count.
  pub point_get-point_set :
      (c c' : Answers) (w v : World)
      → 0 < length file
      → length file < acp.path_max
      → 0 < length id
      → length id < max_length
      → (point_set acp c file id count err_no w).0 ≡ success
      → let w' = (point_set acp c file id count err_no w).2 in
        v.point ≡ w'.point
        → (point_get acp c' v).0 ≡ success
        → ((point_get acp c' v).1 ≡ some (file, id, count, err_no))
          × ((i : ℕ) → i < max_threads → w'.point.hit_counts i ≡ count)
  unfolding point_set point_get
  point_get-point_set c c' w v lo hi lo' hi' done shared got =
      let set = set_point acp file id count err_no in
      let given = locked_call-success c tt set w done in
      let stored = set_point-stores (entered c tt set w) lo hi lo' hi' in
      let w' = (point_set acp c file id count err_no w).2 in
      let get = locked_call-success c' none (get_point acp) v got in
      let seen = entered-point c' none (get_point acp) v ∙ ap (with_lock true) (shared ∙ given.2) in
      (
        get.1
            ∙ get_point-stored (entered c' none (get_point acp) v)
                (ap (λ p. p.file) seen ∙ stored.0) (ap (λ p. p.id) seen ∙ stored.1)
                (ap (λ p. p.count) seen ∙ stored.2) (ap (λ p. p.err_no) seen ∙ stored.3) hi hi',
        λ i lt. ap (λ p. p.hit_counts i) given.2 ∙ stored.4 i lt,
      )
