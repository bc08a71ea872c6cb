-- ===== src/Stage/Client.antt =====
-- `prepareClient` of stage/stage_utils.go. The Presto client is a parameter; the stages share their
-- clients, so that they are kept in a store under the handle that a stage has.
pub mod Session
use pbench.Prelude.{
  ℕ, suc, ◌≡◌, Bool, true, false, not, ◌||◌, Option, none, some, List, [], ◌∷◌, Text, Map, text_eq,
  if◌then◌else◌, ◌==◌,
}
use pbench.Stage.Config.{Stage}

-- What `prepareClient` calls of the client.
pub record ClientApi : Type 1 where
  pub Client : Type 0
  pub get_catalog : Client → Text
  pub get_schema : Client → Text
  pub get_time_zone : Client → Text
  pub set_catalog : Text → Client → Client
  pub set_schema : Text → Client → Client
  pub set_time_zone : Text → Client → Client
  pub session_param : Text → Option Text → Client → Client
  pub append_client_tag : Text → Client → Client

module _ (api : ClientApi) where
  open api use {
    Client, get_catalog, get_schema, get_time_zone, set_catalog, set_schema, set_time_zone,
    session_param, append_client_tag,
  }

  -- The clients by their handles, the handle of the next one, and what `States.NewClient` makes.
  pub record Clients : Type 0 where
    pub held : ℕ → Client
    pub next_handle : ℕ
    pub new_client : Client

  -- Is the value set, and another than the client's?
  pub changes : Option Text → Text → Bool
  changes none current = false
  changes (some value) current = not (text_eq value current)

  -- `needsNewClient`
  pub needs_new_client : Stage → Client → Bool
  unfolding changes
  needs_new_client s c =
      changes s.catalog (get_catalog c)
      || (changes s.schema (get_schema c) || changes s.time_zone (get_time_zone c))

  set_params : Map (Option Text) → Client → Client
  set_params [] c = c
  set_params ((k, v) ∷ params) c = set_params params (session_param k v c)

  set_option : (Text → Client → Client) → Option Text → Client → Client
  set_option set none c = c
  set_option set (some value) c = set value c

  -- The settings of a new client, in the order of the calls.
  pub configured : Stage → Client → Client
  unfolding set_params set_option
  configured s c =
      let c1 = set_option set_catalog s.catalog c in
      let c2 = set_option set_schema s.schema c1 in
      let c3 = set_params s.session_params c2 in
      let c4 = set_option set_time_zone s.time_zone c3 in append_client_tag s.id c4

  current : (Client → Text) → Option Text → Client → Text
  current get none c = get c
  current get (some value) c = value

  store_at : ℕ → Client → (ℕ → Client) → ℕ → Client
  store_at h c held j = if h == j then c else held j

  -- The branch that creates a client: `currentCatalog`, `currentSchema` and `currentTimeZone` are read
  -- between the calls that set them.
  pub on_new_client : Stage → Clients → Stage × Clients
  unfolding configured current store_at set_option set_params
  on_new_client s st =
      let c = st.new_client in
      let c1 = set_option set_catalog s.catalog c in
      let c2 = set_option set_schema s.schema c1 in
      let c3 = set_params s.session_params c2 in
      (
        record s {
          client = some st.next_handle;
          current_catalog = current get_catalog s.catalog c;
          current_schema = current get_schema s.schema c1;
          current_time_zone = current get_time_zone s.time_zone c3;
        },
        record st {
          held = store_at st.next_handle (configured s c) st.held;
          next_handle = suc st.next_handle;
        },
      )

  -- The branch that goes on with the client of the stage.
  reused : Stage → Client → Stage
  reused s c = record s {
    current_catalog = get_catalog c;
    current_schema = get_schema c;
    current_time_zone = get_time_zone c;
  }

  with_client : Stage → Clients → Option ℕ → Stage × Clients
  unfolding reused on_new_client needs_new_client
  with_client s st none = on_new_client s st
  with_client s st (some h) =
      if s.start_on_new_client || needs_new_client s (st.held h)
      then on_new_client s st
      else (reused s (st.held h), st)

  -- `prepareClient`
  pub prepare_client : Stage → Clients → Stage × Clients
  unfolding with_client
  prepare_client s st = with_client s st s.client
