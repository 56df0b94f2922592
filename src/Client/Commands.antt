-- ===== src/Client/Commands.antt =====
-- cmd/client/main.go: the commands of the client, over any API client. The flags in front of the
-- command are parsed with the same package as those behind it.
pub mod Store
pub mod Handlers
pub mod Main
pub mod Frames
pub mod Again
pub mod Laws
use goph_keeper.Base.{
  Bool, true, false, Option, none, some, List, [], ◌∷◌, ◌++◌, Text, Bytes, Outcome, ok, err, Error,
  wrapped, Run,
}
use goph_keeper.Models.{Meta}
use goph_keeper.Client.Items.{Item, Stamp}
use goph_keeper.Client.Api.{Api}
use goph_keeper.Client.Sync.{State}
use goph_keeper.Client.Flags.{FlagSet, Values, Parsing, parsed, exits, parse}

-- What is printed: a line of text, and the formats of `list`, `get` and `sync`, whose times are
-- printed as `Stamp` says.
pub data Line : Type 0 where
  text_line : Text → Line
  list_line : Text → Text → Stamp → Line
  secret_line : Text → Text → Text → Meta → Stamp → Line
  sync_line : Text → Text → Text → Stamp → Line

-- The end of a run: the package `flag` ends the process, or `run` returns.
pub data Exit : Type 0 where
  exited : Exit
  returned : Outcome (Unit {0}) → Exit

-- The device with the API client, and what was printed.
pub record Cli (A : Api) : Type 0 where
  pub state : State A
  pub output : List Line

abbrev pub Command : Api → Type 0
Command A = Cli A → Exit × Cli A

module _ {A : Api} where
  abbrev pub print : List Line → Cli A → Cli A
  print lines cli = record cli { output = cli.output ++ lines }

  abbrev pub printed : {X : Type 0} → Text → (X → List Line) → Outcome X → Command A
  printed label lines (ok x) cli = (returned (ok tt), print (lines x) cli)
  printed label lines (err e) cli = (returned (err (wrapped label e)), cli)

  -- `if err != nil { return fmt.Errorf("label: %w", err) }`, and then what is printed.
  abbrev pub reporting : {X : Type 0} → Text → Run (State A) X → (X → List Line) → Command A
  reporting label m lines cli =
      let (x, s) = m cli.state in printed label lines x (record cli { state = s })

  abbrev pub after_parse : (Values → Command A) → Parsing → Command A
  after_parse next exits cli = (exited, cli)
  after_parse next (parsed values rest) cli = next values cli

  -- `fs.Parse(args)`, which returns only without an error.
  abbrev pub with_flags : FlagSet → List Text → (Values → Command A) → Command A
  with_flags flags args next = after_parse next (parse flags args)
