-- ===== src/Options/Tests.antt =====
-- A command a with the toggle flags j and t of one group.
use cmdr_cxx.Base.{[], ◌∷◌, none, some, Str, codes, true, str_eq, is_prefix, ◌≡◌, refl}
use cmdr_cxx.Store.{Heap, get_raw}
use cmdr_cxx.Store.Laws.{IsStore}
use cmdr_cxx.Store.Dictionary.{new_store, new_store-IsStore, look_up}
use cmdr_cxx.Parse.{Node, done}
use cmdr_cxx.Options.{MatchedArg, dotted_key, on_arg_matched, all_matched}
use cmdr_cxx.Options.Writes.{all_writes, all_matched-look_up, on_arg_matched_keeps}

abbrev json : MatchedArg
json = record {
  key = codes "a.j";
  title_long = codes "j";
  toggle_group_name = codes "g";
  of_bool = true;
  group = codes "j" ∷ codes "t" ∷ [];
}

abbrev app : Node
app = record {
  title_long = codes "a";
  owner = none;
  all_args = [];
  all_commands = [];
  long_args = [];
  short_args = [];
  long_commands = [];
  short_commands = [];
}

json_key : dotted_key (app ∷ []) (some 0) (codes "j") ≡ done (codes "a.j")
unfolding dotted_key
json_key = refl

abbrev store : Heap Str
store = new_store []

all_matched-look_up_example :
    (h' : Heap Str) × (all_matched [] (codes "0") (λ t. t) store ((json, codes "1") ∷ []) ≡ some h')
    × IsStore h'
    × ((j : Str)
        → get_raw [] h' 0 j
          ≡ look_up
              (get_raw [] store 0)
              (all_writes [] (codes "0") (λ t. t) ((json, codes "1") ∷ []))
              j)
all_matched-look_up_example =
    all_matched-look_up [] (codes "0") (λ t. t) store ((json, codes "1") ∷ [])
      (new_store-IsStore [])

on_arg_matched_keeps_example :
    (h' : Heap Str) × (on_arg_matched [] (codes "0") (λ t. t) store json (codes "1") ≡ some h')
    × (get_raw [] h' 0 (codes "a.t") ≡ get_raw [] store 0 (codes "a.t"))
unfolding str_eq is_prefix
on_arg_matched_keeps_example =
    on_arg_matched_keeps [] (codes "0") (λ t. t) store json (codes "1") b'a' (codes ".j")
      (codes "a.t") (new_store-IsStore []) refl refl refl
