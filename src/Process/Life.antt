-- ===== src/Process/Life.antt =====
-- The life of a process that waits for signals: requests, hangups and the ticks of the filter's
-- refresh loop, one after the other. A hangup comes with the files and a tick with the answers of the
-- web of that moment.
pub mod Replies
use resolvit.Prelude.{
  ◌≡◌, refl, Bool, true, false, ◌&&◌, Option, none, some, List, [], ◌∷◌, if◌then◌else◌, ℕ,
}
use resolvit.Go.Text.{Text}
use resolvit.Go.Int.{is_positive}
use resolvit.Go.Outcome.{Outcome, done, ◌>>=◌}
use resolvit.Dns.{Msg}
use resolvit.Records.{Store, LoadError}
use resolvit.Filtering.Filter.{Filter}
use resolvit.Filtering.Loader.{Host, Response}
use resolvit.Filtering.Refresh.{load_once}
use resolvit.Handler.{Env, World, handle_dns_request}
use resolvit.Server.Wiring.{Handler, Surroundings, env_of}
use resolvit.Process.{Files, load_records, reload}

-- What requests read: the local records and the filter, with the disk that the lists are loaded from.
pub record Settings (Disk : Type 0) : Type 0 where
  pub records : Store
  pub filter : Option Filter
  pub disk : Disk

pub data Happening (Request : Type 0) : Type 0 where
  -- a request with its surroundings, whose records are the process's, and the fuel for its aliases
  asks : Surroundings → ℕ → Option Msg → Happening Request
  hangs_up : Files → Happening Request
  ticks : (Request → Option Response) → Happening Request

module _ {Disk Request : Type 0} (path : Text) (handler : Handler) (host : Host Disk Request) where
  abbrev pub env_at : Settings Disk → Surroundings → Env
  env_at s around = env_of handler s.filter (record around { records = s.records })

  -- The loop runs only for an enabled filter with a positive interval.
  unfoldable pub tick : Settings Disk → (Request → Option Response) → Option Filter → Settings Disk
  tick s send none = s
  tick s send (some f) =
      let (disk, f') = load_once (record host { send = send }) s.disk f in
      if f.enabled && is_positive f.update_interval
      then record s { filter = some f'; disk = disk }
      else s

  -- The records are loaded, and the cache is cleared if that gives no error.
  unfoldable pub after_hangup :
      Settings Disk → World → Store × Option LoadError → Settings Disk × World
  unfolding reload
  after_hangup s w loaded =
      let state = reload (record { records = s.records; cache = w.cache }) loaded in
      (record s { records = state.records }, record w { cache = state.cache })

  unfoldable pub on_happening :
      Settings Disk → World → Happening Request → Outcome (Settings Disk × World)
  unfolding tick after_hangup
  on_happening s w (asks around fuel request) = do
    w' ← handle_dns_request (env_at s around) fuel request w
    done (s, w')
  on_happening s w (hangs_up files) = done (after_hangup s w (load_records files s.records path))
  on_happening s w (ticks send) = done (tick s send s.filter, w)

  unfoldable pub live :
      Settings Disk → World → List (Happening Request) → Outcome (Settings Disk × World)
  unfolding on_happening
  live s w [] = done (s, w)
  live s w (h ∷ hs) = do (s', w') ← on_happening s w h; live s' w' hs
