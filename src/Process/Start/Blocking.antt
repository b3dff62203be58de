-- ===== src/Process/Start/Blocking.antt =====
-- From the configuration to the answers: what a started process blocks.
use resolvit.Prelude.{
  ℕ, ◌≡◌, refl, sym, ap, ◌∙◌, Bool, false, true, Option, none, some, List, [], ◌∷◌, ◌++◌,
  if◌then◌else◌,
}
use resolvit.Go.Text.{Text}
use resolvit.Go.Int.{is_positive}
use resolvit.Go.Outcome.{done}
use resolvit.Dns.{Msg, Question, IsDocumented, rcode_name_error}
use resolvit.Records
use resolvit.Filtering.Filter.{Filter, should_block}
use resolvit.Filtering.Loader.{Response}
use resolvit.Filtering.Refresh.{new_filter, decides, start, start_blocks, last_load}
use resolvit.Filtering.Sources.{catalog, build_sources}
use resolvit.Config.{Config}
use resolvit.Config.Load.{Others}
use resolvit.Handler.{World, handle_dns_request}
use resolvit.Handler.Answers.{handle_blocked_name}
use resolvit.Server.Wiring.{Surroundings, env_of}
use resolvit.Process.Start.{Machine, Running, serving, filter_options, start_filter, start_up}
use resolvit.Process.Start.Ready.{start_up-IsReady}

blocks_some :
    (o : Option Filter) (name : Text) → should_block o name ≡ true → (f : Filter) × (o ≡ some f)
unfolding should_block
blocks_some none name h = cc
blocks_some (some f) name h = (f, refl)

module _ {Viper Table Disk Request : Type 0} (machine : Machine Viper Table Disk Request)
    (ticks : List (Request → Option Response)) where
  -- The filter that a configuration asks for, before it loads anything.
  abbrev pub filter_for : Config Others → Filter
  filter_for cfg =
      let filtering = cfg.rest.filtering in
      record {
        enabled = filtering.enabled;
        block_subdomains = filtering.block_subdomains;
        allowlist_path = filtering.allowlist.path;
        sources = build_sources catalog filtering.lists filtering.custom.list;
        cache_dir = filtering.cache_dir;
        update_interval = filtering.update_interval;
        error_limit = cfg.blocklist_error_limit;
        has_blocked_log = false;
        blocklist = none;
        allowlist = none;
      }

  -- What the lists of a configuration decide, loaded from some state of the disk and of the web.
  abbrev pub lists_decide : Config Others → (Request → Option Response) → Disk → Text → Bool
  lists_decide cfg send disk name =
      decides (record machine.host { send = send }) disk (filter_for cfg) name

  filter_decides :
      (p : Running Disk) (name : Text)
      → start_up machine ticks ≡ serving p
      → p.cfg.rest.filtering.enabled ≡ true
      → (send : Request → Option Response) × (loaded_from : Disk) × (should_block p.filter name
          ≡ lists_decide p.cfg send loaded_from name)
  unfolding start_filter
  filter_decides p name up on =
      let ready = start_up-IsReady machine ticks p up in
      let made_filter = new_filter machine.opens_blocked_log (filter_options p.cfg) in
      let active = if is_positive made_filter.update_interval then ticks else [] in
      let (send, loaded_from) =
        last_load machine.host made_filter machine.host.send machine.disk active in
      let decided = start_blocks machine.host machine.disk made_filter ticks name on in
      let started = start machine.host machine.disk made_filter ticks in
      let made : Bool → Disk × Option Filter =
        λ b. if b then (started.0, some started.1) else (machine.disk, none) in
      let filter : p.filter ≡ some started.1 =
        ap (λ (x : Disk × Option Filter). x.1) ready.filters ∙ ap (λ b. (made b).1) on in
      (send, loaded_from, ap (λ f. should_block f name) filter ∙ decided)

  -- If a process was started with filtering switched on, and its filter blocks the name of a question
  -- without a local record, then the lists of the catalog and of the configuration, as one load found
  -- them, decide to block it, and the server answers NXDOMAIN and leaves its cache alone. The DNS
  -- library is as documented.
  pub start_up_blocks :
      (p : Running Disk) (around : Surroundings) (fuel : ℕ) (r : Msg) (q : Question)
      (qs : List Question) (w : World)
      → start_up machine ticks ≡ serving p
      → p.cfg.rest.filtering.enabled ≡ true
      → IsDocumented around.lib
      → r.question ≡ q ∷ qs
      → Records.get around.records q.name ≡ none
      → should_block p.filter q.name ≡ true
      → (send : Request → Option Response) × (loaded_from : Disk) × (lists_decide p.cfg send
            loaded_from q.name
          ≡ true)
        × (w' : World) × (handle_dns_request (env_of p.srv.handler p.filter around) fuel (some r) w
            ≡ done w')
        × (w'.cache ≡ w.cache)
        × (m : Msg) × (w'.written ≡ w.written ++ m ∷ [])
        × (m.rcode ≡ rcode_name_error)
  start_up_blocks p around fuel r q qs w up on documented asked miss blocked =
      let (send, loaded_from, decided) = filter_decides p q.name up on in
      let (f, has) = blocks_some p.filter q.name blocked in
      let (w', e, cache, logged, m, sent, rcode, same_id, no_answer) =
        handle_blocked_name (env_of p.srv.handler p.filter around) fuel r q qs w asked documented f
          has miss blocked in
      (send, loaded_from, sym decided ∙ blocked, w', e, cache, m, sent, rcode)
