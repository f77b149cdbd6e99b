-- ===== src/Chainsetup/Removing.antt =====
-- libecasound/eca-chainsetup.cpp: adding and removing audio objects. An operation gives what it
-- calls on other objects, in order; `none` is an index outside a vector.
pub mod Removed
use Prim.Native.String.{String}
use ecasound.Common.{
  ℕ, zero, suc, ◌+◌, ◌-◌, Bool, true, false, not, ◌&&◌, ◌||◌, List, [], ◌∷◌, ◌++◌, map, Option,
  none, some, ◌==◌, get_elem?, if◌then◌else◌,
}
use ecasound.Chainsetup.{
  Direction, input, output, opposite, Objects, Member, Chainsetup, objects, with_objects, on_chain,
  object_removed, attach_to_selected_chains,
}

pub data Call : Type 0 where
  set_io_mode_read set_io_mode_write set_io_mode_readwrite set_audio_format set_buffersize register
        unregister delete_proxy delete_object :
      ℕ → Call
  create_proxy : (proxy aio : ℕ) → Call

-- add_audio_object_helper: `proxy` is the address of a new AUDIO_IO_DB_CLIENT.
pub add_audio_object_helper : (is_device is_loop : ℕ → Bool) → (proxy aio : ℕ) → ℕ × List Call × ℕ
add_audio_object_helper is_device is_loop proxy aio =
    if not (is_device aio) && not (is_loop aio)
    then (proxy, create_proxy proxy aio ∷ [], 1)
    else (aio, [], 0)

-- What add_input and add_output share, after the calls that set the object up.
pub add_object :
    (is_device is_loop : ℕ → Bool)
    → Direction
    → (proxy aio : ℕ) → Chainsetup
    → List Call × Chainsetup
unfolding add_audio_object_helper
add_object is_device is_loop dir proxy aio s =
    let (layerobj, calls, clients) = add_audio_object_helper is_device is_loop proxy aio in
    let o = objects dir s in
    let added =
      with_objects dir (record o { objs = o.objs ++ layerobj ∷ []; direct = o.direct ++ aio ∷ [] })
        s in
    (
      register aio ∷ calls,
      attach_to_selected_chains dir layerobj (record added { db_clients = s.db_clients + clients }),
    )

pub add_input :
    (is_device is_loop : ℕ → Bool) → (proxy aio : ℕ) → Chainsetup → List Call × Chainsetup
unfolding add_object
add_input is_device is_loop proxy aio s =
    let (calls, s') = add_object is_device is_loop input proxy aio s in
    (set_io_mode_read aio ∷ set_audio_format aio ∷ set_buffersize aio ∷ calls, s')

pub add_output :
    (is_device is_loop : ℕ → Bool)
    → (proxy aio : ℕ) → (truncate : Bool) → Chainsetup
    → List Call × Chainsetup
unfolding add_object
add_output is_device is_loop proxy aio truncate s =
    let (calls, s') = add_object is_device is_loop output proxy aio s in
    (
      set_audio_format aio
          ∷ set_buffersize aio
          ∷ (if truncate then set_io_mode_write aio else set_io_mode_readwrite aio)
          ∷ calls,
      s',
    )

-- priv_erase_object: the first entry.
pub priv_erase_object : ℕ → List ℕ → List ℕ
priv_erase_object obj [] = []
priv_erase_object obj (x ∷ xs) = if x == obj then xs else x ∷ priv_erase_object obj xs

-- The loop that looks for the object, from position `n` on: it does not stop at the first entry.
pub remove_index : ℕ → (n : ℕ) → List ℕ → Option ℕ
remove_index aobj n [] = none
remove_index aobj n (x ∷ xs) = elim (remove_index aobj (suc n) xs) [
  | some k ↦ some k
  | none ↦ if x == aobj then some n else none
]

pub record Removal : Type 0 where
  pub object : Option ℕ
  pub calls : List Call
  pub setup : Chainsetup

-- remove_audio_object_proxy, where the object is not its direct object; with the number of proxies
-- that are left.
unfoldable pub remove_proxy :
    (is_db_client : ℕ → Bool) → (aobj direct db_clients : ℕ) → List Call × ℕ
remove_proxy is_db_client aobj direct db_clients =
    if not (aobj == direct) && is_db_client aobj
    then (delete_proxy aobj ∷ [], db_clients - 1)
    else ([], db_clients)

pub without_object : Direction → (aobj direct k : ℕ) → Chainsetup → Chainsetup
unfolding priv_erase_object object_removed
without_object dir aobj direct k s =
    let o = objects dir s in
    with_objects dir
      (record o {
        objs = priv_erase_object aobj o.objs;
        direct = priv_erase_object direct o.direct;
      })
      (record s { chains = map (on_chain (object_removed dir k)) s.chains })

-- With the object at position `k`, and its direct object.
pub remove_direct :
    (is_db_client : ℕ → Bool) → Direction → (aobj k : ℕ) → Chainsetup → Option ℕ → Option Removal
unfolding remove_proxy without_object
remove_direct is_db_client dir aobj k s none = none
remove_direct is_db_client dir aobj k s (some direct) =
    let (calls, db_clients) = remove_proxy is_db_client aobj direct s.db_clients in
    some (record {
      object = some direct;
      calls = unregister direct ∷ calls;
      setup = without_object dir aobj direct k (record s { db_clients = db_clients });
    })

pub remove_found :
    (is_db_client : ℕ → Bool) → Direction → ℕ → Chainsetup → Option ℕ → Option Removal
unfolding remove_direct
remove_found is_db_client dir aobj s none = some (record { object = none; calls = []; setup = s })
remove_found is_db_client dir aobj s (some k) =
    remove_direct is_db_client dir aobj k s (get_elem? (objects dir s).direct k)

-- remove_audio_object_impl with `destroy` false, and with the direct object that it removes.
pub remove_once : (is_db_client : ℕ → Bool) → Direction → ℕ → Chainsetup → Option Removal
unfolding remove_index remove_found
remove_once is_db_client dir aobj s =
    remove_found is_db_client dir aobj s (remove_index aobj 0 (objects dir s).objs)

pub erase_loop : ℕ → List (String × ℕ) → List (String × ℕ)
erase_loop aio [] = []
erase_loop aio ((name, x) ∷ rest) = if x == aio then rest else (name, x) ∷ erase_loop aio rest

pub remove_audio_object_loop :
    (is_db_client : ℕ → Bool) → Direction → (aobj loop_aio : ℕ) → Removal → Option Removal
unfolding remove_once erase_loop
remove_audio_object_loop is_db_client dir aobj loop_aio r =
    elim (remove_once is_db_client (opposite dir) aobj r.setup) [
      | none ↦ none
      | some r' ↦ some (record r {
        calls = r.calls ++ r'.calls;
        setup = record r'.setup { loop_map = erase_loop loop_aio r'.setup.loop_map };
      })
    ]

pub delete_last : ℕ → Option Removal → Option Removal
delete_last direct none = none
delete_last direct (some r) = some (record r { calls = r.calls ++ delete_object direct ∷ [] })

-- What follows with `destroy` true, where an object has been removed.
pub destroy_object :
    (is_db_client is_loop : ℕ → Bool) → Direction → ℕ → Removal → Option ℕ → Option Removal
unfolding remove_audio_object_loop delete_last
destroy_object is_db_client is_loop dir aobj r none = some r
destroy_object is_db_client is_loop dir aobj r (some direct) =
    delete_last direct
      (if is_loop direct then remove_audio_object_loop is_db_client dir aobj direct r else some r)

-- remove_audio_object_impl with `destroy` true: remove_audio_input and remove_audio_output.
unfoldable pub remove_audio_object :
    (is_db_client is_loop : ℕ → Bool) → Direction → ℕ → Chainsetup → Option Removal
unfolding remove_once destroy_object
remove_audio_object is_db_client is_loop dir aobj s = elim (remove_once is_db_client dir aobj s) [
  | none ↦ none
  | some r ↦ destroy_object is_db_client is_loop dir aobj r r.object
]
