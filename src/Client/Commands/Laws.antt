-- ===== src/Client/Commands/Laws.antt =====
-- cmd/client/main.go: what one run adds is what a later run gets.
use mathlib.Core.Bool.{false≢true}
use goph_keeper.Base.{
  ◌≡◌, refl, sym, ap, ◌∙◌, inl, inr, Bool, true, false, none, some, List, [], ◌∷◌, ◌++◌, Text,
  Bytes, codes, text_beq, text_beq_refl, is_blank, Unicode, ok, err, Error, Outcome-cases,
}
use goph_keeper.Config.{ClientConfig}
use goph_keeper.Config.Load.{load_client_config}
use goph_keeper.Config.Validate.{validate_client}
use goph_keeper.Client.Items.{Item}
use goph_keeper.Client.Commands.Again.{ready, get_again}
use goph_keeper.Client.Service.Secrets.{changed_item}
use goph_keeper.Client.Device.{IsWritable}
use goph_keeper.Client.LocalRows.Views.{IsLocal}
use goph_keeper.Database.{IsUp}
use goph_keeper.Client.Crypto.{Cipher, new_crypto}
use goph_keeper.Client.Service
use goph_keeper.Client.Api.{Api}
use goph_keeper.Client.Flags.{Values, parsed, parse, value_of}
use goph_keeper.Client.Commands.{Line, text_line, Exit, returned, Cli}
use goph_keeper.Client.Commands.Store.{new_local_store}
use goph_keeper.Client.Commands.Handlers.{
  add_flags, id_flags, handle_add, handle_get, secret_line_of,
}
use goph_keeper.Client.Commands.Main.{
  Machine, in_directory, Outside, HttpClient, build_http_client, build_crypto, dispatch, with_valid,
  run, asks_version, root_flags, shows_version, overrides,
}

abbrev is_done : Exit → Bool
is_done (returned (ok tt)) = true
is_done _ = false

abbrev line_text : Line → Text
line_text (text_line t) = t
line_text _ = []

abbrev last_text : List Line → Text
last_text [] = []
last_text (l ∷ []) = line_text l
last_text (l ∷ l' ∷ lines) = last_text (l' ∷ lines)

last_text_append : (lines : List Line) (t : Text) → last_text (lines ++ text_line t ∷ []) ≡ t
last_text_append [] t = refl
last_text_append (l ∷ []) t = refl
last_text_append (l ∷ l' ∷ lines) t = last_text_append (l' ∷ lines) t

printed_same :
    (lines : List Line) (s t : Text) → lines ++ text_line s ∷ [] ≡ lines ++ text_line t ∷ [] → s ≡ t
printed_same lines s t h =
    sym (last_text_append lines s) ∙ ap last_text h ∙ last_text_append lines t

not_done : (e : Error) → ¬ (returned (err e) ≡ returned (ok tt))
not_done e h = false≢true (ap is_done h)

module _ (u : Unicode) (c : Cipher) (A : Api) (o : Outside A) where
  abbrev pub Added : Text → Values → Cli A → Exit × Cli A → Type 0
  Added master values cli x =
      (key : Bytes) × (id : Text) × ((new_crypto c master cli.state.0).0 ≡ ok key)
      × ((Service.add c (some key) (value_of values (codes "type"))
            (value_of values (codes "payload")) (value_of values (codes "meta"))
            (ready u c A o master cli.state.0)).0
          ≡ ok id)
      × (x.1.state.0
          ≡ (Service.add c (some key) (value_of values (codes "type"))
              (value_of values (codes "payload")) (value_of values (codes "meta"))
              (ready u c A o master cli.state.0)).1)
      × (x.1.output ≡ cli.output ++ text_line id ∷ [])

  added :
      (cfg : ClientConfig) (http : HttpClient) (master : Text) (args rest : List Text)
      (values : Values) (cli : Cli A)
      → build_http_client o.host o.is_pem cfg ≡ ok http
      → parse add_flags args ≡ parsed values rest
      → (with_valid u c A o cfg master (codes "add") args none cli).0 ≡ returned (ok tt)
      → Added master values cli (with_valid u c A o cfg master (codes "add") args none cli)
  unfolding build_crypto dispatch handle_add text_beq
  added cfg http master args rest values cli connects asks done =
      elim (Outcome-cases (new_crypto c master cli.state.0).0) [
        | inr (e, bad) ↦ absurd (not_done _ (rw bad at done))
        | inl (key, made) ↦
            elim (Outcome-cases (new_local_store o.opening (new_crypto c master cli.state.0).1).0) [
              | inr (e, bad) ↦ absurd (not_done _ (rw (made, connects, bad) at done))
              | inl (_, opened) ↦
                  elim (Outcome-cases
                    (Service.add c (some key) (value_of values (codes "type"))
                      (value_of values (codes "payload")) (value_of values (codes "meta"))
                      (ready u c A o master cli.state.0)).0) [
                        | inr (e, bad) ↦
                            absurd (not_done _ (rw (made, connects, opened, asks, bad) at done))
                        | inl (id, adding) ↦ (
                          key,
                          id,
                          made,
                          adding,
                          rw (made, connects, opened, asks, adding) refl,
                          rw (made, connects, opened, asks, adding) refl,
                        )
                      ]
            ]
      ]

  got :
      (cfg : ClientConfig) (http : HttpClient) (master : Text) (args rest : List Text)
      (values : Values) (cli : Cli A) (key : Bytes) (item : Item)
      → build_http_client o.host o.is_pem cfg ≡ ok http
      → parse id_flags args ≡ parsed values rest
      → (new_crypto c master cli.state.0).0 ≡ ok key
      → (new_local_store o.opening (new_crypto c master cli.state.0).1).0 ≡ ok tt
      → (Service.get c
          (some key)
          (value_of values (codes "id"))
          (ready u c A o master cli.state.0)).0
        ≡ ok item
      → ((with_valid u c A o cfg master (codes "get") args none cli).0 ≡ returned (ok tt))
        × ((with_valid u c A o cfg master (codes "get") args none cli).1.output
            ≡ cli.output ++ secret_line_of item ∷ [])
  unfolding build_crypto dispatch handle_get text_beq
  got cfg http master args rest values cli key item connects asks made opened finds =
      (rw (made, connects, opened, asks, finds) refl, rw (made, connects, opened, asks, finds) refl)

  -- The arguments start a command: its flags in front give a master password and a configuration
  -- that is loaded, valid and makes an HTTP client.
  pub record Starts (args : List Text) (command : Text) (rest : List Text) (master : Text)
      (cfg : ClientConfig) : Type 0 where
    pub values : Values
    pub http : HttpClient
    pub no_version : asks_version u c A o args ≡ false
    pub parses : parse root_flags args ≡ parsed values (command ∷ rest)
    pub shows_no_version : shows_version values ≡ false
    pub has_master : value_of values (codes "master-password") ≡ master
    pub loads : load_client_config u o.host o.parsers (overrides values) ≡ ok cfg
    pub valid : validate_client u cfg ≡ none
    pub connects : build_http_client o.host o.is_pem cfg ≡ ok http

  run_lem :
      (args : List Text) (command : Text) (rest : List Text) (master : Text) (cfg : ClientConfig)
      (m : Machine A) (h : Starts args command rest master cfg)
      → run u c A o args m
        ≡ in_directory u c A o cfg.data_dir (with_valid u c A o cfg master command rest none) m
  unfolding run
  run_lem args command rest master cfg m h =
      rw (h.no_version, h.parses, h.shows_no_version, h.has_master, h.loads, h.valid) refl

module _ (u : Unicode) (c : Cipher) (A : Api) (o : Outside A) where
  -- A secret that one run of the client adds is what a later run prints: if `add` ends without an
  -- error, it prints an identifier, and `get` of it with the same master password, right after it,
  -- ends without an error and prints the identifier, the trimmed type, the payload in plain
  -- without the spaces around it, the parsed metadata and the time of the call in whole seconds.
  -- Both runs have the same data directory, though perhaps by different paths. The identifier is
  -- not blank, the directory's rows are sound, its database answers, and its files are read and
  -- written without an error.
  pub run-run :
      (args args' add_args get_args rest rest' : List Text) (master id : Text)
      (values asked : Values) (cfg cfg' : ClientConfig) (m : Machine A)
      (h : Starts u c A o args (codes "add") add_args master cfg)
      (h' : Starts u c A o args' (codes "get") get_args master cfg')
      → o.directory cfg'.data_dir ≡ o.directory cfg.data_dir
      → parse add_flags add_args ≡ parsed values rest
      → parse id_flags get_args ≡ parsed asked rest'
      → value_of asked (codes "id") ≡ id
      → is_blank id ≡ false
      → let home = m.homes (o.directory cfg.data_dir) in
        IsUp home.env
        → IsLocal home.rows
        → IsWritable home
        → o.opening.open_error ≡ none
        → (run u c A o args m).0 ≡ returned (ok tt)
        → (run u c A o args m).1.output ≡ m.output ++ text_line id ∷ []
        → let m' = (run u c A o args m).1 in
          let d = ready u c A o master home in
          let at = d.env.clock d.env.ticks in
          ((run u c A o args' m').0 ≡ returned (ok tt))
          × ((run u c A o args' m').1.output
              ≡ m'.output
                ++ secret_line_of (
                    changed_item id
                      (value_of values (codes "type"))
                      (value_of values (codes "payload"))
                      (value_of values (codes "meta"))
                      at
                      at)
                  ∷ [])
  run-run args args' add_args get_args rest rest' master id values asked cfg cfg' m h h' same_home
        asks asks' is_id named up local writable opens done shown =
      let place = o.directory cfg.data_dir in
      let cli : Cli A = record { state = (m.homes place, m.api); output = m.output } in
      let start = run_lem u c A o args (codes "add") add_args master cfg m h in
      let (key, id', made, adding, state, output) =
        added u c A o cfg h.http master add_args rest values cli h.connects asks
          (rw start at done) in
      let same : id' ≡ id = printed_same m.output id' id (sym output ∙ (rw start at shown)) in
      let (again, opened, finds) =
        get_again u c A o master (value_of values (codes "type"))
          (value_of values (codes "payload")) (value_of values (codes "meta")) id key cli.state.0
          named up local writable opens made (rw same at adding) in
      let cli1 = (with_valid u c A o cfg master (codes "add") add_args none cli).1 in
      let m1 =
        (in_directory u c A o cfg.data_dir
          (with_valid u c A o cfg master (codes "add") add_args none) m).1 in
      let start' = run_lem u c A o args' (codes "get") get_args master cfg' m1 h' in
      let kept : m1.homes (o.directory cfg'.data_dir) ≡ cli1.state.0 =
        rw (same_home, text_beq_refl place) refl in
      let cli2 : Cli A = record {
        state = (m1.homes (o.directory cfg'.data_dir), m1.api);
        output = m1.output;
      } in
      let d = ready u c A o master cli.state.0 in
      let at = d.env.clock d.env.ticks in
      let item =
        changed_item id (value_of values (codes "type")) (value_of values (codes "payload"))
          (value_of values (codes "meta")) at at in
      let (ends, prints) =
        got u c A o cfg' h'.http master get_args rest' asked cli2 key item h'.connects asks'
          (rw (kept, state) again) (rw (kept, state) opened) (rw (is_id, kept, state) finds) in
      (rw (start, start') ends, rw (start, start') prints)
