-- ===== src/Chainsetup/Removing/Removed.antt =====
-- What the removal of an audio object leaves of the vectors and of the connections of the chains.
use ecasound.Common.{
  ℕ, suc, ◌+◌, ◌≡◌, refl, sym, ap, ◌∙◌, Bool, true, false, List, [], ◌∷◌, ◌++◌, map, Option, none,
  some, arith, ◌==◌, length, get_elem?, remove_at, if◌then◌else◌,
}
use ecasound.Common.Int.{pos, eq_ℤ}
use ecasound.Chain.{Chain, input_removed, output_removed}
use ecasound.Chain.Connections.{object_at, object_at-input_removed, object_at-output_removed}
use ecasound.Chainsetup.{
  Direction, input, output, opposite, Member, Chainsetup, objects, connection, on_chain,
  object_removed,
}
use ecasound.Chainsetup.Attaching.{Absent, get_elem?-map, get_elem?-middle}
use ecasound.Chainsetup.Removing.{
  unregister, delete_object, priv_erase_object, remove_index, Removal, remove_proxy, without_object,
  remove_found, remove_direct, remove_once, remove_audio_object_loop, delete_last, destroy_object,
  remove_audio_object,
}

module _ (obj : ℕ) where
  same_obj : (obj == obj) ≡ true
  same_obj = ground arith

  priv_erase_object_lem :
      (xs ys : List ℕ) → Absent obj xs → priv_erase_object obj (xs ++ obj ∷ ys) ≡ xs ++ ys
  unfolding priv_erase_object
  priv_erase_object_lem [] ys h = rw same_obj refl
  priv_erase_object_lem (x ∷ xs) ys h = rw h.0 (ap (λ l. x ∷ l) (priv_erase_object_lem xs ys h.1))

  remove_at-middle : (xs ys : List ℕ) → remove_at (xs ++ obj ∷ ys) (length xs) ≡ xs ++ ys
  remove_at-middle [] ys = refl
  remove_at-middle (x ∷ xs) ys = ap (λ l. x ∷ l) (remove_at-middle xs ys)

  -- What the loop goes on with after its further rounds.
  abbrev or_here : ℕ → Bool → Option ℕ → Option ℕ
  or_here n here later = elim later [ some k ↦ some k | none ↦ if here then some n else none ]

  remove_index-Absent : (n : ℕ) (ys : List ℕ) → Absent obj ys → remove_index obj n ys ≡ none
  unfolding remove_index
  remove_index-Absent n [] h = refl
  remove_index-Absent n (y ∷ ys) h =
      ap (or_here n (y == obj)) (remove_index-Absent (suc n) ys h.1)
      ∙ ap (λ (b : Bool). or_here n b none) h.0

  remove_index_lem :
      (n : ℕ) (xs ys : List ℕ)
      → Absent obj ys
      → remove_index obj n (xs ++ obj ∷ ys) ≡ some (n + length xs)
  unfolding remove_index
  remove_index_lem n [] ys h =
      let z : n + 0 ≡ n = omega arith in
      rw z (
        ap (or_here n (obj == obj)) (remove_index-Absent (suc n) ys h)
        ∙ ap (λ (b : Bool). or_here n b none) same_obj)
  remove_index_lem n (x ∷ xs) ys h =
      let at : n + length (x ∷ xs) ≡ suc n + length xs = omega arith in
      rw at (ap (or_here n (x == obj)) (remove_index_lem (suc n) xs ys h))

-- The object stands once among those of the setup, and so does the direct object at its position.
pub record StandsOnce (dir : Direction) (s : Chainsetup) (aobj direct : ℕ) : Type 0 where
  pub before : List ℕ
  pub after : List ℕ
  pub direct_before : List ℕ
  pub direct_after : List ℕ
  pub split : (objects dir s).objs ≡ before ++ aobj ∷ after
  pub direct_split : (objects dir s).direct ≡ direct_before ++ direct ∷ direct_after
  pub same_position : length direct_before ≡ length before
  pub once_before : Absent aobj before
  pub once_after : Absent aobj after
  pub direct_once : Absent direct direct_before

object_at-object_removed :
    (dir : Direction) (objs : List ℕ) (k : ℕ) (c : Chain)
    → (object_at (remove_at objs k) (connection dir (object_removed dir k c))
        ≡ (if eq_ℤ (connection dir c) (pos k) then none else object_at objs (connection dir c)))
      × (connection (opposite dir) (object_removed dir k c) ≡ connection (opposite dir) c)
unfolding object_removed input_removed output_removed
object_at-object_removed input objs k c = (object_at-input_removed objs k c, ground arith)
object_at-object_removed output objs k c = (object_at-output_removed objs k c, ground arith)

-- The vectors without position `k`, and the chains connected to the objects that they were connected
-- to, or to none where that is gone.
pub record IsRemoved (dir : Direction) (k : ℕ) (s s' : Chainsetup) : Type 0 where
  pub objs_left : (objects dir s').objs ≡ remove_at (objects dir s).objs k
  pub direct_left : (objects dir s').direct ≡ remove_at (objects dir s).direct k
  pub other_side : objects (opposite dir) s' ≡ objects (opposite dir) s
  pub chains_kept :
      (n : ℕ) (m : Member)
      → get_elem? s.chains n ≡ some m
      → (m' : Member) × (get_elem? s'.chains n ≡ some m')
        × (m'.name ≡ m.name)
        × (connection (opposite dir) m'.chain ≡ connection (opposite dir) m.chain)
        × (object_at (objects dir s').objs (connection dir m'.chain) ≡ (
            if eq_ℤ (connection dir m.chain) (pos k)
            then none
            else object_at (objects dir s).objs (connection dir m.chain)))

erased :
    (obj : ℕ) (all xs ys : List ℕ)
    → all ≡ xs ++ obj ∷ ys
    → Absent obj xs
    → priv_erase_object obj all ≡ remove_at all (length xs)
erased obj all xs ys e h =
    rw e (priv_erase_object_lem obj xs ys h ∙ sym (remove_at-middle obj xs ys))

removed_connection :
    (dir : Direction) (k : ℕ) (before after : List ℕ) (chains : List Member)
    → after ≡ remove_at before k
    → (n : ℕ) (m : Member) → get_elem? chains n ≡ some m
    → (m' : Member) × (get_elem? (map (on_chain (object_removed dir k)) chains) n ≡ some m')
      × (m'.name ≡ m.name)
      × (connection (opposite dir) m'.chain ≡ connection (opposite dir) m.chain)
      × (object_at after (connection dir m'.chain) ≡ (
          if eq_ℤ (connection dir m.chain) (pos k)
          then none
          else object_at before (connection dir m.chain)))
removed_connection dir k before after chains e n m h =
    let (at, opp) = object_at-object_removed dir before k m.chain in
    (
      on_chain (object_removed dir k) m,
      get_elem?-map (on_chain (object_removed dir k)) chains n h,
      refl,
      opp,
      ap (λ (objs : List ℕ). object_at objs (connection dir (object_removed dir k m.chain))) e ∙ at,
    )

without_object-IsRemoved :
    (dir : Direction) (aobj direct clients : ℕ) (s : Chainsetup)
    (once : StandsOnce dir s aobj direct)
    → IsRemoved dir
        (length once.before)
        s
        (without_object dir aobj direct (length once.before) (record s { db_clients = clients }))
unfolding without_object
without_object-IsRemoved input aobj direct clients s once =
    let left = erased aobj s.inputs.objs once.before once.after once.split once.once_before in
    let dleft =
      erased direct s.inputs.direct once.direct_before once.direct_after once.direct_split
        once.direct_once in
    record {
      objs_left = left;
      direct_left = dleft ∙ ap (remove_at s.inputs.direct) once.same_position;
      other_side = refl;
      chains_kept = removed_connection input (length once.before) s.inputs.objs _ s.chains left;
    }
without_object-IsRemoved output aobj direct clients s once =
    let left = erased aobj s.outputs.objs once.before once.after once.split once.once_before in
    let dleft =
      erased direct s.outputs.direct once.direct_before once.direct_after once.direct_split
        once.direct_once in
    record {
      objs_left = left;
      direct_left = dleft ∙ ap (remove_at s.outputs.direct) once.same_position;
      other_side = refl;
      chains_kept = removed_connection output (length once.before) s.outputs.objs _ s.chains left;
    }

-- remove_once on such an object.
remove_once_lem :
    (is_db_client : ℕ → Bool) (dir : Direction) (aobj direct : ℕ) (s : Chainsetup)
    (once : StandsOnce dir s aobj direct)
    → let (calls, clients) = remove_proxy is_db_client aobj direct s.db_clients in
      remove_once is_db_client dir aobj s
      ≡ some (record {
        object = some direct;
        calls = unregister direct ∷ calls;
        setup =
            without_object dir aobj direct (length once.before) (record s { db_clients = clients });
      })
unfolding remove_once
remove_once_lem is_db_client dir aobj direct s once =
    let k = length once.before in
    let z : 0 + k ≡ k = omega arith in
    let index : remove_index aobj 0 (objects dir s).objs ≡ some k =
      rw once.split (rw z at (remove_index_lem aobj 0 once.before once.after once.once_after)) in
    let there : get_elem? (objects dir s).direct k ≡ some direct =
      ap (λ (l : List ℕ). get_elem? l k) once.direct_split
      ∙ ap (get_elem? (once.direct_before ++ direct ∷ once.direct_after)) (sym once.same_position)
      ∙ get_elem?-middle once.direct_before once.direct_after direct in
    ap (remove_found is_db_client dir aobj s) index
    ∙ ap (remove_direct is_db_client dir aobj k s) there

abbrev destroyed :
    (is_db_client is_loop : ℕ → Bool) → Direction → ℕ → Option Removal → Option Removal
destroyed is_db_client is_loop dir aobj o = elim o [
  | none ↦ none
  | some r ↦ destroy_object is_db_client is_loop dir aobj r r.object
]

-- Removing an input or output that stands once in the setup and is no loop device, and whose direct
-- object does as well, takes both out at their position and deletes the direct object last; every
-- chain stays connected to the object that it was connected to, or to none if that is the one
-- removed. Nothing changes in the other direction.
pub remove_audio_object-IsRemoved :
    (is_db_client is_loop : ℕ → Bool) (dir : Direction) (aobj direct : ℕ) (s : Chainsetup)
    (once : StandsOnce dir s aobj direct)
    → is_loop direct ≡ false
    → (r : Removal) × (remove_audio_object is_db_client is_loop dir aobj s ≡ some r)
      × (r.calls
          ≡ unregister direct ∷ (remove_proxy is_db_client aobj direct s.db_clients).0
            ++ delete_object direct ∷ [])
      × IsRemoved dir (length once.before) s r.setup
unfolding remove_audio_object destroy_object delete_last
remove_audio_object-IsRemoved is_db_client is_loop dir aobj direct s once l =
    let (calls, clients) = remove_proxy is_db_client aobj direct s.db_clients in
    let setup =
      without_object dir aobj direct (length once.before) (record s { db_clients = clients }) in
    let r : Removal = record {
      object = some direct;
      calls = unregister direct ∷ calls;
      setup = setup;
    } in
    (
      record r { calls = r.calls ++ delete_object direct ∷ [] },
      ap (destroyed is_db_client is_loop dir aobj)
            (remove_once_lem is_db_client dir aobj direct s once)
          ∙ ap
              (λ (b : Bool).
                delete_last direct
                  (if b then remove_audio_object_loop is_db_client dir aobj direct r else some r))
              l,
      refl,
      without_object-IsRemoved dir aobj direct clients s once,
    )
