-- ===== src/Server/Reloader/Answers.antt =====
-- What becomes of the requests to reload.
use blackbox_exporter_with_g.Common.{
  ℕ, ◌+◌, String, Bool, true, false, ◌≡◌, refl, ap, List, [], ◌∷◌, ◌++◌, map, if◌then◌else◌, Option,
  arith, ◌==◌, ℕ_eq, length, length-append, ◌≤◌, none,
}
use blackbox_exporter_with_g.Common.Text.{Bytes}
use blackbox_exporter_with_g.Config.Reload.{Modules, Disk}
use blackbox_exporter_with_g.Server.Reloader.{
  Work, idle, reloading, answering, System, reloaded, Serve, take_, reload, answer, Step, signal,
  post, hup, serve, tick, Steps, done, then_,
}

abbrev pub occurrences : ℕ → List ℕ → ℕ
occurrences request [] = 0
occurrences request (r ∷ rs) = (if r == request then 1 else 0) + occurrences request rs

abbrev pub doing : ℕ → Work → ℕ
doing request idle = 0
doing request (reloading r) = if r == request then 1 else 0
doing request (answering r given) = if r == request then 1 else 0

-- How often a request waits, is being served, or has been answered.
abbrev pub total : ℕ → System → ℕ
total request s =
    occurrences request s.waiting
    + doing request s.work
    + occurrences request (map (λ a. a.0) s.answered)

-- The steps that are left until every request is answered: three for each that waits.
abbrev pub left : Work → ℕ
left idle = 0
left (reloading r) = 2
left (answering r given) = 1

abbrev pub thrice : ℕ → ℕ
thrice n = n + n + n

abbrev pub remaining : System → ℕ
remaining s = thrice (length s.waiting) + left s.work

occurrences-append :
    (request : ℕ) (xs ys : List ℕ)
    → occurrences request (xs ++ ys) ≡ occurrences request xs + occurrences request ys
occurrences-append request [] ys = omega arith
occurrences-append request (x ∷ xs) ys = (let e = occurrences-append request xs ys in omega arith)

module _ (sha256_hex : Bytes → String) (decode : Bytes → Option Modules) where
  ticked :
      (b : Bool) (s : System) (disk : Disk)
      → ((request : ℕ)
          → total request (if b then reloaded sha256_hex decode s disk else s) ≡ total request s)
        × (remaining (if b then reloaded sha256_hex decode s disk else s) ≡ remaining s)
  ticked true s disk = (λ request. refl, refl)
  ticked false s disk = (λ request. refl, refl)

  Serve-total :
      (request : ℕ) {s t : System} → Serve sha256_hex decode s t → total request t ≡ total request s
  Serve-total request (take_ s before r after free split) =
      let e = occurrences-append request before (r ∷ after) in
      let f = occurrences-append request before after in
      let g = ap (occurrences request) split in let h = ap (doing request) free in omega arith
  Serve-total request (reload s r disk busy) = (let h = ap (doing request) busy in omega arith)
  Serve-total request (answer s r given busy) = (let h = ap (doing request) busy in omega arith)

  Serve-remaining : {s t : System} → Serve sha256_hex decode s t → remaining s ≡ 1 + remaining t
  Serve-remaining (take_ s before r after free split) =
      let e = length-append before (r ∷ after) in
      let f = length-append before after in
      let g = ap length split in let h = ap left free in omega arith
  Serve-remaining (reload s r disk busy) = (let h = ap left busy in omega arith)
  Serve-remaining (answer s r given busy) = (let h = ap left busy in omega arith)

  -- The goroutine can do nothing for a request.
  abbrev pub IsStuck : System → Type 0
  IsStuck s = (t : System) → ¬ Serve sha256_hex decode s t

  abbrev no_file : Disk
  no_file = record { read_file = none; opened = none; now = 0 }

  stuck-done :
      (s : System) (work : Work) (waiting : List ℕ)
      → s.work ≡ work
      → s.waiting ≡ waiting
      → IsStuck s
      → (s.work ≡ idle) × (s.waiting ≡ [])
  stuck-done s idle [] w e h = (w, e)
  stuck-done s idle (r ∷ rs) w e h = absurd (h _ (take_ s [] r rs w e))
  stuck-done s (reloading r) waiting w e h = absurd (h _ (reload s r no_file w))
  stuck-done s (answering r given) waiting w e h = absurd (h _ (answer s r given w))

module _ (sha256_hex : Bytes → String) (decode : Bytes → Option Modules) (auto_reload : Bool) where
  Step-total :
      (request : ℕ) {made : List ℕ} {s t : System}
      → Step sha256_hex decode auto_reload made s t
      → total request t ≡ total request s + occurrences request made
  Step-total request (signal s) = omega arith
  Step-total request (post s r) =
      (let e = occurrences-append request s.waiting (r ∷ []) in omega arith)
  Step-total request (hup s disk free h) = omega arith
  Step-total request (tick s disk free) =
      (let e = (ticked sha256_hex decode auto_reload s disk).0 request in omega arith)
  Step-total request (serve step) =
      (let e = Serve-total sha256_hex decode request step in omega arith)

  -- After any steps, a request waits, is being served or has been answered as often as it did before
  -- and has been made since: none is lost, and none is answered more often than it is made.
  pub Steps-total :
      (request : ℕ) {made : List ℕ} {s t : System}
      → Steps sha256_hex decode auto_reload made s t
      → total request t ≡ total request s + occurrences request made
  Steps-total request (done s) = omega arith
  Steps-total request (then_ {s} {t} {u} {made} {others} step rest) =
      let e = Step-total request step in
      let f = Steps-total request rest in
      let g = occurrences-append request made others in omega arith

  abbrev pub is_serve :
      {made : List ℕ} {s t : System} → Step sha256_hex decode auto_reload made s t → ℕ
  is_serve (signal s) = 0
  is_serve (post s r) = 0
  is_serve (hup s disk free h) = 0
  is_serve (tick s disk free) = 0
  is_serve (serve step) = 1

  -- How many of the steps serve a request.
  abbrev pub serves :
      {made : List ℕ} {s t : System} → Steps sha256_hex decode auto_reload made s t → ℕ
  serves (done s) = 0
  serves (then_ step rest) = is_serve step + serves rest

  Step-remaining :
      {made : List ℕ} {s t : System} (step : Step sha256_hex decode auto_reload made s t)
      → is_serve step + remaining t ≡ remaining s + thrice (length made)
  Step-remaining (signal s) = omega arith
  Step-remaining (post s r) = (let e = length-append s.waiting (r ∷ []) in omega arith)
  Step-remaining (hup s disk free h) = omega arith
  Step-remaining (tick s disk free) =
      (let e = (ticked sha256_hex decode auto_reload s disk).1 in omega arith)
  Step-remaining (serve step) = (let e = Serve-remaining sha256_hex decode step in omega arith)

  Steps-remaining :
      {made : List ℕ} {s t : System} (run : Steps sha256_hex decode auto_reload made s t)
      → serves run + remaining t ≡ remaining s + thrice (length made)
  Steps-remaining (done s) = omega arith
  Steps-remaining (then_ {s} {t} {u} {made} {others} step rest) =
      let e = Step-remaining step in
      let f = Steps-remaining rest in let g = length-append made others in omega arith

  -- Every request as often as it is asked for has been answered, and the goroutine is idle.
  pub record IsDrained (s : System) (made : List ℕ) (t : System) : Type 0 where
    pub idle_ : t.work ≡ idle
    pub empty : t.waiting ≡ []
    pub answered :
        (request : ℕ)
        → occurrences request (map (λ a. a.0) t.answered)
          ≡ total request s + occurrences request made

  -- Of any steps, those that serve requests are at most three for each request that waits at first
  -- or is made, with those that are left of the one being served. Where the goroutine can then do
  -- nothing for a request, it is idle, none waits, and each has been answered as often as it has been
  -- made: serving neither goes on for ever nor gets stuck before the last answer.
  pub Steps-IsDrained :
      {made : List ℕ} {s t : System} (run : Steps sha256_hex decode auto_reload made s t)
      → (serves run ≤ remaining s + thrice (length made))
        × (IsStuck sha256_hex decode t → IsDrained s made t)
  Steps-IsDrained {made} {s} {t} run =
      let e = Steps-remaining run in
      (
        omega arith,
        λ stuck.
            let (free, none_left) =
              stuck-done sha256_hex decode t t.work t.waiting refl refl stuck in
            record {
              idle_ = free;
              empty = none_left;
              answered = λ request.
                  let f = Steps-total request run in
                  let g = ap (doing request) free in
                  let h = ap (occurrences request) none_left in omega arith;
            },
      )
