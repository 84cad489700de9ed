-- ===== src/Examples/Hubs.antt =====
-- The theorems on a hub at a hub with two connections and a message on its way.
use mathlib.Core.Option
use synctv.Base.{
  ℕ, String, true, false, ◌&&◌, not, some, List, [], ◌∷◌, ◌≡◌, ◌≢◌, ◌↔◌, ◌⊎◌, refl, str_eq,
  if◌then◌else◌, map,
}
use synctv.Base.Result.{ok, err, is_ok}
use synctv.Base.Dict.{lookup, store, SomeOf}
use synctv.Utils.Page.{in_list}
use synctv.Op.Client.{Client, close, already_closed}
use synctv.Op.Hub.{
  Hub, deliver, waits, continues, BroadcastMessage, serve, reg_client, kick_user, close_hub,
  broadcast_message, get_client_by_conn_id, all_clients, new_hub,
}
use synctv.Op.Hub.Delivery.{Delivered, IsFull, serve-Delivered}
use synctv.Op.Hub.Registry.{get_client-reg_client, reg_client_fails, get_client-kick_user}
use synctv.Op.Hub.Lifecycle.{
  Call, registers, broadcasts, serves, closes, counts, reads, starts, step, run, AllClosed, IsShut,
  registers-serving, broadcasts-serving, close_hub-IsShut,
}

abbrev tab : String → Client ℕ
tab id = record { user_id = "ann"; conn_id = id; rtc_joined = false; is_closed = false; sent = [] }

abbrev note : BroadcastMessage ℕ
note = record { payload = 7; ignore_conn_id = "t2" ∷ []; ignore_user_id = []; rtc_joined = false }

abbrev hub : Hub ℕ
hub = record {
  id = "room";
  broadcast = note ∷ [];
  clients = ("ann", ("t1", tab "t1") ∷ ("t2", tab "t2") ∷ []) ∷ [];
  once = record { done = 1 };
  is_closed = false;
  serving = true;
}

serve-Delivered_example :
    ((serve true hub ≡ waits) × SomeOf (SomeOf (IsFull note)) hub.clients)
    ⊎ ((h' : Hub ℕ) × (serve true hub ≡ continues h')
        × (h'.broadcast ≡ [])
        × ((c' : Client ℕ) × (get_client_by_conn_id h' "ann" "t1" ≡ some c')
            × Delivered note (tab "t1") c'))
unfolding get_client_by_conn_id lookup
serve-Delivered_example = serve-Delivered true hub note [] "ann" "t1" (tab "t1") refl refl refl refl

get_client-reg_client_example : get_client_by_conn_id (reg_client (tab "t3") hub).1 "ann" "t3" ≡ (
    if is_ok (reg_client (tab "t3") hub).0 && (str_eq "ann" "ann" && str_eq "t3" "t3")
    then some (tab "t3")
    else get_client_by_conn_id hub "ann" "t3")
get_client-reg_client_example = get_client-reg_client (tab "t3") hub "ann" "t3"

reg_client_fails_example :
    (reg_client (tab "t1") hub).0 ≢ ok tt
    ↔ (hub.is_closed ≡ true) ⊎ ((c : Client ℕ) × (get_client_by_conn_id hub "ann" "t1" ≡ some c))
reg_client_fails_example = reg_client_fails (tab "t1") hub

get_client-kick_user_example :
    ((kick_user "ann" hub).0 ≡ (if hub.is_closed then err already_closed else ok tt))
    × (get_client_by_conn_id (kick_user "ann" hub).1 "ann" "t2" ≡ (
        if not hub.is_closed && str_eq "ann" "ann"
        then Option.map (λ (c : Client ℕ). (close c).1) (get_client_by_conn_id hub "ann" "t2")
        else get_client_by_conn_id hub "ann" "t2"))
get_client-kick_user_example = get_client-kick_user hub "ann" "ann" "t2"

abbrev later : List (Call ℕ)
later = registers (tab "t3") ∷ serves false ∷ counts "ann" ∷ closes ∷ serves true ∷ []

close_hub-IsShut_example :
    let after = run (close_hub hub).1 later in
    ((close_hub hub).0 ≡ ok (map (λ d. (close d).1) (all_clients hub.clients)))
    × AllClosed (map (λ d. (close d).1) (all_clients hub.clients))
    × IsShut after
    × (reg_client (tab "t4") after ≡ (err already_closed, after))
    × (broadcast_message 8 [] after ≡ some (err already_closed, after))
    × (close_hub after ≡ (err already_closed, after))
close_hub-IsShut_example = close_hub-IsShut hub later (tab "t4") 8 [] refl

abbrev talk : List (Call ℕ)
talk = broadcasts 7 [] ∷ serves true ∷ reads "ann" "t1" ∷ starts ∷ []

registers-serving_example : (run (new_hub "room") (registers (tab "t1") ∷ talk)).serving ≡ true
unfolding new_hub run step reg_client broadcast_message serve lookup store deliver in_list
registers-serving_example = registers-serving "room" (tab "t1") talk refl

broadcasts-serving_example : (run (new_hub "room") (broadcasts 7 [] ∷ later)).serving ≡ false
broadcasts-serving_example = broadcasts-serving "room" 7 [] later
