-- ===== src/Stage/Client/Session.antt =====
-- The session with which a stage executes (`prepareClient` of stage/stage_utils.go).
use pbench.Prelude.{
  ℕ, ◌<◌, ◌≡◌, refl, sym, ap, ◌∙◌, Bool, true, false, ◌||◌, Option, none, some, [], ◌∷◌, Text, Map,
  text_eq_iff, arith, Bool-cases, inl, inr,
}
use pbench.Stage.Config.{Stage}
use pbench.Stage.Client.{
  ClientApi, Clients, changes, needs_new_client, set_params, set_option, configured, current,
  store_at, on_new_client, reused, with_client, prepare_client,
}

-- What the getters of a client tell after each call: a setter sets its own value, and nothing else
-- changes any.
pub record Laws (api : ClientApi) : Type 0 where
  pub catalog_set : (v : Text) (c : api.Client) → api.get_catalog (api.set_catalog v c) ≡ v
  pub schema_set : (v : Text) (c : api.Client) → api.get_schema (api.set_schema v c) ≡ v
  pub time_zone_set : (v : Text) (c : api.Client) → api.get_time_zone (api.set_time_zone v c) ≡ v
  pub catalog_schema :
      (v : Text) (c : api.Client) → api.get_catalog (api.set_schema v c) ≡ api.get_catalog c
  pub catalog_time_zone :
      (v : Text) (c : api.Client) → api.get_catalog (api.set_time_zone v c) ≡ api.get_catalog c
  pub catalog_param :
      (k : Text) (v : Option Text) (c : api.Client)
      → api.get_catalog (api.session_param k v c) ≡ api.get_catalog c
  pub catalog_tag :
      (v : Text) (c : api.Client) → api.get_catalog (api.append_client_tag v c) ≡ api.get_catalog c
  pub schema_time_zone :
      (v : Text) (c : api.Client) → api.get_schema (api.set_time_zone v c) ≡ api.get_schema c
  pub schema_param :
      (k : Text) (v : Option Text) (c : api.Client)
      → api.get_schema (api.session_param k v c) ≡ api.get_schema c
  pub schema_tag :
      (v : Text) (c : api.Client) → api.get_schema (api.append_client_tag v c) ≡ api.get_schema c
  pub time_zone_tag :
      (v : Text) (c : api.Client)
      → api.get_time_zone (api.append_client_tag v c) ≡ api.get_time_zone c

-- A value that is set, or the other.
abbrev pub value_or : Option Text → Text → Text
value_or none d = d
value_or (some v) d = v

all_false : (a b c : Bool) → (a || (b || c)) ≡ false → (a ≡ false) × (b ≡ false) × (c ≡ false)
all_false false false false h = (refl, refl, refl)
all_false true b c h = absurd (cc h)
all_false false true c h = absurd (cc h)
all_false false false true h = absurd (cc h)

second_false : (a b : Bool) → (a || b) ≡ false → b ≡ false
second_false false b h = h
second_false true b h = absurd (cc h)

module _ (api : ClientApi) (laws : Laws api) where
  open api use {
    Client, get_catalog, get_schema, get_time_zone, set_catalog, set_schema, set_time_zone,
    append_client_tag,
  }

  -- A stage executes with the catalog, schema and time zone that its client has, and these are its own
  -- where it sets them.
  pub record IsPrepared (s t : Stage) (st : Clients api) (h : ℕ) : Type 0 where
    pub client : t.client ≡ some h
    pub catalog : t.current_catalog ≡ get_catalog (st.held h)
    pub schema : t.current_schema ≡ get_schema (st.held h)
    pub time_zone : t.current_time_zone ≡ get_time_zone (st.held h)
    pub own_catalog : t.current_catalog ≡ value_or s.catalog t.current_catalog
    pub own_schema : t.current_schema ≡ value_or s.schema t.current_schema
    pub own_time_zone : t.current_time_zone ≡ value_or s.time_zone t.current_time_zone

  catalog_params :
      (m : Map (Option Text)) (c : Client) → get_catalog (set_params api m c) ≡ get_catalog c
  unfolding set_params
  catalog_params [] c = refl
  catalog_params ((k, v) ∷ m) c =
      catalog_params m (api.session_param k v c) ∙ laws.catalog_param k v c

  schema_params :
      (m : Map (Option Text)) (c : Client) → get_schema (set_params api m c) ≡ get_schema c
  unfolding set_params
  schema_params [] c = refl
  schema_params ((k, v) ∷ m) c = schema_params m (api.session_param k v c) ∙ laws.schema_param k v c

  catalog_kept :
      (set : Text → Client → Client) (o : Option Text) (c : Client)
      → ((v : Text) (c : Client) → get_catalog (set v c) ≡ get_catalog c)
      → get_catalog (set_option api set o c) ≡ get_catalog c
  unfolding set_option
  catalog_kept set none c h = refl
  catalog_kept set (some v) c h = h v c

  schema_kept :
      (set : Text → Client → Client) (o : Option Text) (c : Client)
      → ((v : Text) (c : Client) → get_schema (set v c) ≡ get_schema c)
      → get_schema (set_option api set o c) ≡ get_schema c
  unfolding set_option
  schema_kept set none c h = refl
  schema_kept set (some v) c h = h v c

  current_set :
      (get : Client → Text) (set : Text → Client → Client) (o : Option Text) (c : Client)
      → ((v : Text) (c : Client) → get (set v c) ≡ v)
      → current api get o c ≡ get (set_option api set o c)
  unfolding current set_option
  current_set get set none c h = refl
  current_set get set (some v) c h = sym (h v c)

  current_own :
      (get : Client → Text) (o : Option Text) (c : Client)
      → current api get o c ≡ value_or o (current api get o c)
  unfolding current
  current_own get none c = refl
  current_own get (some v) c = refl

  stored : (h : ℕ) (c : Client) (held : ℕ → Client) → store_at api h c held h ≡ c
  unfolding store_at
  stored h c held = ground arith

  on_new_client-IsPrepared :
      (s : Stage) (st : Clients api)
      → IsPrepared s (on_new_client api s st).0 (on_new_client api s st).1 st.next_handle
  unfolding on_new_client configured
  on_new_client-IsPrepared s st =
      let c = st.new_client in
      let c1 = set_option api set_catalog s.catalog c in
      let c2 = set_option api set_schema s.schema c1 in
      let c3 = set_params api s.session_params c2 in
      let c4 = set_option api set_time_zone s.time_zone c3 in
      let at_handle = stored st.next_handle (append_client_tag s.id c4) st.held in
      record {
        client = refl;
        catalog =
            current_set get_catalog set_catalog s.catalog c laws.catalog_set
            ∙ sym (catalog_kept set_schema s.schema c1 laws.catalog_schema)
            ∙ sym (catalog_params s.session_params c2)
            ∙ sym (catalog_kept set_time_zone s.time_zone c3 laws.catalog_time_zone)
            ∙ sym (laws.catalog_tag s.id c4)
            ∙ sym (ap get_catalog at_handle);
        schema =
            current_set get_schema set_schema s.schema c1 laws.schema_set
            ∙ sym (schema_params s.session_params c2)
            ∙ sym (schema_kept set_time_zone s.time_zone c3 laws.schema_time_zone)
            ∙ sym (laws.schema_tag s.id c4)
            ∙ sym (ap get_schema at_handle);
        time_zone =
            current_set get_time_zone set_time_zone s.time_zone c3 laws.time_zone_set
            ∙ sym (laws.time_zone_tag s.id c4)
            ∙ sym (ap get_time_zone at_handle);
        own_catalog = current_own get_catalog s.catalog c;
        own_schema = current_own get_schema s.schema c1;
        own_time_zone = current_own get_time_zone s.time_zone c3;
      }

  no_change : (o : Option Text) (v : Text) → changes api o v ≡ false → v ≡ value_or o v
  unfolding changes
  no_change none v h = refl
  no_change (some w) v h = ground (arith, text_eq_iff w v)

  reused-IsPrepared :
      (s : Stage) (st : Clients api) (h : ℕ)
      → s.client ≡ some h
      → needs_new_client api s (st.held h) ≡ false
      → IsPrepared s (reused api s (st.held h)) st h
  unfolding reused needs_new_client
  reused-IsPrepared s st h e k =
      let (a, b, c) = all_false (changes api s.catalog (get_catalog (st.held h))) _ _ k in
      record {
        client = e;
        catalog = refl;
        schema = refl;
        time_zone = refl;
        own_catalog = no_change s.catalog (get_catalog (st.held h)) a;
        own_schema = no_change s.schema (get_schema (st.held h)) b;
        own_time_zone = no_change s.time_zone (get_time_zone (st.held h)) c;
      }

  with_client-IsPrepared :
      (s : Stage) (st : Clients api) (o : Option ℕ)
      → s.client ≡ o
      → (h : ℕ) × IsPrepared s (with_client api s st o).0 (with_client api s st o).1 h
  unfolding with_client
  with_client-IsPrepared s st none e = (st.next_handle, on_new_client-IsPrepared s st)
  with_client-IsPrepared s st (some h) e =
      elim (Bool-cases (s.start_on_new_client || needs_new_client api s (st.held h))) [
        | inl b ↦ rw b (st.next_handle, on_new_client-IsPrepared s st)
        | inr b ↦ rw b (h, reused-IsPrepared s st h e (second_false s.start_on_new_client _ b))
      ]

  -- Whether it goes on with the client of its parent or on a new one, a stage executes with the catalog,
  -- schema and time zone that its client has, and with its own where it sets them. The client's getters
  -- tell what its setters set, and nothing else changes them.
  pub prepare_client-IsPrepared :
      (s : Stage) (st : Clients api)
      → (h : ℕ) × IsPrepared s (prepare_client api s st).0 (prepare_client api s st).1 h
  unfolding prepare_client
  prepare_client-IsPrepared s st = with_client-IsPrepared s st s.client refl

module _ (api : ClientApi) where
  store_at_other :
      (h j : ℕ) (c : api.Client) (held : ℕ → api.Client) → j < h → store_at api h c held j ≡ held j
  unfolding store_at
  store_at_other h j c held less = ground arith

  with_client_kept :
      (s : Stage) (st : Clients api) (o : Option ℕ) (j : ℕ)
      → j < st.next_handle
      → (with_client api s st o).1.held j ≡ st.held j
  unfolding with_client on_new_client
  with_client_kept s st none j h = store_at_other st.next_handle j _ st.held h
  with_client_kept s st (some k) j h =
      elim (Bool-cases (s.start_on_new_client || needs_new_client api s (st.held k))) [
        | inl b ↦ rw b (store_at_other st.next_handle j _ st.held h)
        | inr b ↦ rw b refl
      ]

  -- No client that another stage holds is changed: neither its session nor its settings.
  pub prepare_client_kept :
      (s : Stage) (st : Clients api) (j : ℕ)
      → j < st.next_handle
      → (prepare_client api s st).1.held j ≡ st.held j
  unfolding prepare_client
  prepare_client_kept s st j h = with_client_kept s st s.client j h
