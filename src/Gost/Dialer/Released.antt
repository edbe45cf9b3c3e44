-- ===== src/Gost/Dialer/Released.antt =====
-- What a dial leaves open.
use blackbox_exporter_with_g.Common.{
  ◌≡◌, refl, ap, ◌∙◌, inl, inr, Bool, true, false, List, [], ◌∷◌, ◌++◌, Bool-cases,
}
use blackbox_exporter_with_g.Common.Results.{Result, ok, err}
use blackbox_exporter_with_g.Common.Text.{Bytes, bytes_eq}
use blackbox_exporter_with_g.Common.Trace.{Run, Exit, next, stop, and_then}
use blackbox_exporter_with_g.Config.Types.{TlsConfig}
use blackbox_exporter_with_g.Gost.Context.{Context, configured}
use blackbox_exporter_with_g.Gost.Dialer.{
  raw, ssl_ctx, ssl_conn, Act, made, closed, handshake, verify_hostname, Library, settled,
  new_gost_context, contexted, step, server_name, verifies, shaken, gost_dial,
}

-- Which handles are open.
pub record Open : Type 0 where
  pub socket : Bool
  pub context : Bool
  pub conn : Bool

abbrev pub nothing : Open
nothing = record { socket = false; context = false; conn = false }

abbrev pub everything : Open
everything = record { socket = true; context = true; conn = true }

-- The connection closes its socket.
abbrev act : Act → Open → Open
act (made raw) o = record o { socket = true }
act (made ssl_ctx) o = record o { context = true }
act (made ssl_conn) o = record o { conn = true }
act (closed raw) o = record o { socket = false }
act (closed ssl_ctx) o = record o { context = false }
act (closed ssl_conn) o = record o { socket = false; conn = false }
act handshake o = o
act (verify_hostname name) o = o

abbrev pub after : List Act → Open → Open
after [] o = o
after (a ∷ acts) o = after acts (act a o)

after-append : (xs ys : List Act) (o : Open) → after (xs ++ ys) o ≡ after ys (after xs o)
after-append [] ys o = refl
after-append (x ∷ xs) ys o = after-append xs ys (act x o)

-- From some open handles a computation goes on with others, or has closed all.
record Tidy {A : Type 0} (before done : Open) (x : Exit (Unit {0}) A) (acts : List Act)
    : Type 0 where
  goes_on : (a : A) → x ≡ next a → after acts before ≡ done
  fails : x ≡ stop tt → after acts before ≡ nothing

next-Tidy : {A : Type 0} (o : Open) (a : A) (acts : List Act) → Tidy o (after acts o) (next a) acts
next-Tidy o a acts = record { goes_on = λ b e. refl; fails = λ e. cc }

stop-Tidy :
    {A : Type 0} (o p : Open) (acts : List Act)
    → after acts o ≡ nothing
    → Tidy {A = A} o p (stop tt) acts
stop-Tidy o p acts h = record { goes_on = λ b e. cc; fails = λ e. h }

and_then-Tidy :
    {A B : Type 0} (o p q : Open) (x : Exit (Unit {0}) A) (acts : List Act)
    (f : A → Run Act (Unit {0}) B)
    → Tidy o p x acts
    → ((a : A) → Tidy p q (f a).exit (f a).events)
    → Tidy o q (and_then x acts f).exit (and_then x acts f).events
and_then-Tidy o p q (stop tt) acts f h k = stop-Tidy o q acts (h.fails refl)
and_then-Tidy o p q (next a) acts f h k =
    let joined = after-append acts (f a).events o ∙ ap (after (f a).events) (h.goes_on a refl) in
    record { goes_on = λ b e. joined ∙ (k a).goes_on b e; fails = λ e. joined ∙ (k a).fails e }

module _ {Certificate Key : Type 0} (lib : Library Certificate Key) (c : TlsConfig) where
  step-Tidy :
      (o : Open) (b : Bool) (acts fails : List Act)
      → after fails o ≡ nothing
      → Tidy o (after acts o) (step lib c b acts fails).exit (step lib c b acts fails).events
  step-Tidy o true acts fails h = next-Tidy o tt acts
  step-Tidy o false acts fails h = stop-Tidy o (after acts o) fails h

  abbrev socket_only : Open
  socket_only = record nothing { socket = true }

  abbrev no_conn : Open
  no_conn = record everything { conn = false }

  settled-Tidy :
      (r : Result (Unit {0}) Context)
      → Tidy socket_only no_conn
          (contexted lib c (settled lib c r).exit (settled lib c r).events).exit
          (contexted lib c (settled lib c r).exit (settled lib c r).events).events
  unfolding contexted settled
  settled-Tidy (ok ctx) = next-Tidy _ _ _
  settled-Tidy (err e) = stop-Tidy _ _ _ refl

  contexted-Tidy :
      Tidy socket_only no_conn
        (contexted lib c (new_gost_context lib c).exit (new_gost_context lib c).events).exit
        (contexted lib c (new_gost_context lib c).exit (new_gost_context lib c).events).events
  unfolding new_gost_context contexted
  contexted-Tidy = elim (Bool-cases lib.binding.new_ctx) [
    | inl n ↦ simp n (settled-Tidy (configured lib.binding c))
    | inr n ↦ simp n (stop-Tidy _ _ _ refl)
  ]

  shaken-Tidy :
      (address : Bytes) (ctx : Context)
      → Tidy everything everything (shaken lib c address ctx).exit (shaken lib c address ctx).events
  unfolding shaken
  shaken-Tidy address ctx = elim (Bool-cases (lib.shake ctx)) [
    | inr h ↦ simp h (stop-Tidy _ _ _ refl)
    | inl h ↦ elim (Bool-cases (verifies lib c address)) [
      | inr v ↦ simp (h, v) (next-Tidy _ _ _)
      | inl v ↦ simp (h, v) (step-Tidy _ (lib.verify (server_name lib c address)) _ _ refl)
    ]
  ]

  gost_dial-Tidy :
      (address : Bytes)
      → Tidy nothing everything (gost_dial lib c address).exit (gost_dial lib c address).events
  unfolding gost_dial
  gost_dial-Tidy address =
      and_then-Tidy _ _ _ _ _ _ (step-Tidy nothing (lib.dial address) (made raw ∷ []) [] refl) λ u.
        and_then-Tidy _ _ _ _ _ _ contexted-Tidy λ ctx.
          and_then-Tidy _ _ _ _ _ _ (step-Tidy no_conn (lib.client ctx) (made ssl_conn ∷ []) _ refl)
            λ u.
              and_then-Tidy _ _ _ _ _ _ (step-Tidy everything _ [] _ refl)
                λ u. and_then-Tidy _ _ _ _ _ _ (shaken-Tidy address ctx) λ u. next-Tidy _ ctx []

  -- Whatever the network and the binding answer, a dial that ends with an error has closed all that
  -- it has opened, the socket, the context and the connection of both, and one that succeeds leaves
  -- them all open.
  pub gost_dial-released :
      (address : Bytes)
      → ((gost_dial lib c address).exit ≡ stop tt
          → after (gost_dial lib c address).events nothing ≡ nothing)
        × ((ctx : Context)
            → (gost_dial lib c address).exit ≡ next ctx
            → after (gost_dial lib c address).events nothing ≡ everything)
  gost_dial-released address = let t = gost_dial-Tidy address in (t.fails, t.goes_on)
