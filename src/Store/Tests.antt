-- ===== src/Store/Tests.antt =====
-- Witnesses and runs of the store.
use cmdr_cxx.Base.{
  ℕ, [], ◌∷◌, Option, none, some, Str, codes, ◌≡◌, refl, arith, false, str_eq, if◌then◌else◌, ◌≤◌,
  length,
}
use cmdr_cxx.Store.{Heap, cut_dot, child, indexed, set_raw, get_raw, set_raw_p, get_raw_p, has}
use cmdr_cxx.Base.Maps.{find, insert}
use cmdr_cxx.Store.Laws.{IsStore, set_raw-IsStore, get_raw-set_raw, has_ignores_prefix}
use cmdr_cxx.Store.Dictionary.{new_store, new_store-IsStore, set_all, look_up, set_all-look_up}

abbrev app_cli : Str
app_cli = codes "app.cli"

abbrev port_key : Str
port_key = codes "server.port"

set_raw-IsStore_example :
    (h : Heap ℕ) × (p : ℕ) × (set_raw 0 (new_store 0) 0 port_key 80 ≡ some (h, p))
    × IsStore h
    × (1 ≤ length h)
set_raw-IsStore_example =
    set_raw-IsStore 0 (new_store 0) 0 port_key 80 (new_store-IsStore 0) (omega arith)

get_raw-set_raw_example :
    (h : Heap ℕ) × (p : ℕ) × (set_raw 0 (new_store 0) 0 port_key 80 ≡ some (h, p))
    × ((j : Str)
        → get_raw 0 h 0 j ≡ (if str_eq port_key j then 80 else get_raw 0 (new_store 0) 0 j))
get_raw-set_raw_example =
    get_raw-set_raw 0 (new_store 0) 0 port_key 80 (new_store-IsStore 0) (omega arith)

no_entry : indexed {V = ℕ} (new_store 0) 0 port_key ≡ none
unfolding indexed find
no_entry = refl

has_ignores_prefix_example :
    (h : Heap ℕ) × (p : ℕ) × (set_raw_p 0 (new_store 0) 0 app_cli port_key 80 ≡ some (h, p))
    × (get_raw_p 0 h 0 app_cli port_key ≡ 80)
    × (has h 0 app_cli port_key ≡ false)
has_ignores_prefix_example =
    has_ignores_prefix 0 (new_store 0) 0 b'a' (codes "pp.cli") port_key 80 (new_store-IsStore 0)
      (omega arith) no_entry

set_all-look_up_example :
    (h : Heap ℕ) × (set_all 0 (new_store 0) ((port_key, 80) ∷ (app_cli, 1) ∷ (port_key, 8080) ∷ [])
      ≡ some h)
    × ((j : Str)
        → get_raw 0 h 0 j
          ≡ look_up (λ i. 0) ((port_key, 80) ∷ (app_cli, 1) ∷ (port_key, 8080) ∷ []) j)
set_all-look_up_example = set_all-look_up 0 ((port_key, 80) ∷ (app_cli, 1) ∷ (port_key, 8080) ∷ [])

-- A node on the way is made with the null element, and is not in the index of the root.
abbrev get_after : Option (Heap ℕ × ℕ) → Str → Option ℕ
get_after none k = none
get_after (some r) k = some (get_raw 7 r.0 0 k)

store_runs :
    (get_after (set_raw 7 (new_store 7) 0 port_key 80) port_key ≡ some 80)
    × (get_after (set_raw 7 (new_store 7) 0 port_key 80) (codes "server") ≡ some 7)
    × (get_after (set_raw 7 (new_store 7) 0 port_key 80) (codes "port") ≡ some 7)
unfolding set_raw get_raw cut_dot child find insert str_eq
store_runs = (refl, refl, refl)
