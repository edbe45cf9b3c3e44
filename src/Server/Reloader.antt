-- ===== src/Server/Reloader.antt =====
-- The goroutine of main.go that reloads the configuration, with the handlers that ask it to: a step
-- relation. The channel of the requests is unbuffered: a handler waits until its request is taken,
-- which the goroutine does only when it has nothing to do, and then for the answer on a channel of
-- its own, which the goroutine waits to send after the reload. The channel of the signal holds one.
-- What a reload finds on disk is chosen by the step.
pub mod Answers
use blackbox_exporter_with_g.Common.{
  ℕ, String, Bool, true, false, ◌≡◌, List, [], ◌∷◌, ◌++◌, if◌then◌else◌, Option, ◌==◌, string_eq,
}
use blackbox_exporter_with_g.Common.Results.{Result, ok, err}
use blackbox_exporter_with_g.Common.Text.{Bytes}
use blackbox_exporter_with_g.Config.Reload.{Modules, SafeConfig, Disk, Failure, reload_config}

-- What the goroutine is at: waiting in its `select`, reloading for a request, or sending its answer.
pub data Work : Type 0 where
  idle : Work
  reloading : ℕ → Work
  answering : ℕ → Result Failure (Unit {0}) → Work

-- A request is known by a number; `answered` is what its handler has received.
pub record System : Type 0 where
  pub config : SafeConfig
  pub hup : Bool
  pub waiting : List ℕ
  pub work : Work
  pub answered : List (ℕ × Result Failure (Unit {0}))

-- The status of a request to `/-/reload` without POST, and otherwise by the answer.
abbrev pub status : String → Result Failure (Unit {0}) → ℕ
status method answer = if method == "POST" then elim answer [ ok _ ↦ 200 | err _ ↦ 500 ] else 405

module _ (sha256_hex : Bytes → String) (decode : Bytes → Option Modules) where
  abbrev pub reloaded : System → Disk → System
  reloaded s disk = record s { config = (reload_config sha256_hex decode s.config disk).1 }

  abbrev pub on_hup : System → Disk → System
  on_hup s disk = record (reloaded s disk) { hup = false }

  abbrev pub on_take : System → List ℕ → ℕ → List ℕ → System
  on_take s before request after = record s { waiting = before ++ after; work = reloading request }

  abbrev pub on_reload : System → ℕ → Disk → System
  on_reload s request disk = record (reloaded s disk) {
    work = answering request (reload_config sha256_hex decode s.config disk).0;
  }

  abbrev pub on_answer : System → ℕ → Result Failure (Unit {0}) → System
  on_answer s request answer = record s { work = idle; answered = (request, answer) ∷ s.answered }

  -- What the goroutine does for a request.
  pub data Serve : System → System → Type 0 where
    take_ :
        (s : System) (before : List ℕ) (request : ℕ) (after : List ℕ)
        → s.work ≡ idle
        → s.waiting ≡ before ++ request ∷ after
        → Serve s (on_take s before request after)
    reload :
        (s : System) (request : ℕ) (disk : Disk)
        → s.work ≡ reloading request
        → Serve s (on_reload s request disk)
    answer :
        (s : System) (request : ℕ) (given : Result Failure (Unit {0}))
        → s.work ≡ answering request given
        → Serve s (on_answer s request given)

  -- With the requests that are made in the step. Without auto reload a tick does nothing.
  pub data Step (auto_reload : Bool) : List ℕ → System → System → Type 0 where
    signal : (s : System) → Step auto_reload [] s (record s { hup = true })
    post :
        (s : System) (request : ℕ)
        → Step auto_reload (request ∷ []) s (record s { waiting = s.waiting ++ request ∷ [] })
    hup :
        (s : System) (disk : Disk)
        → s.work ≡ idle
        → s.hup ≡ true
        → Step auto_reload [] s (on_hup s disk)
    tick :
        (s : System) (disk : Disk)
        → s.work ≡ idle
        → Step auto_reload [] s (if auto_reload then reloaded s disk else s)
    serve : {s t : System} → Serve s t → Step auto_reload [] s t

  pub data Steps (auto_reload : Bool) : List ℕ → System → System → Type 0 where
    done : (s : System) → Steps auto_reload [] s s
    then_ :
        {s t u : System} {made others : List ℕ}
        → Step auto_reload made s t
        → Steps auto_reload others t u
        → Steps auto_reload (made ++ others) s u
