-- ===== src/Cli/Run/Laws.antt =====
-- How a command that ended well went through its steps, and which steps leave the machine alone.
use weave_fs.Base.{Option, some, Bytes, Text, ◌≡◌, refl, arith, ap, ◌∙◌, Option-cases, inl, inr}
use weave_fs.Exec.{Result, ok, err, World, calm}
use weave_fs.Disk.{read_file, stat}
use weave_fs.Disk.Resolve.{resolve}
use weave_fs.Disk.Files.{read_file_ok}
use weave_fs.Api.AddrFile.{addr_file_path, read_addr_file}
use weave_fs.Api.Http.{Request, status_ok}
use weave_fs.Store.Version.{Json}
use weave_fs.Cli.Aliases.{Aliases, aliases_path, load_aliases}
use weave_fs.Cli.Client.{
  Outcome, done, failed, Client, Transport, replied, dial_failed, other_failed, Reply, do_request,
  result_in, new_client,
}
use weave_fs.Cli.Run.{
  Command, onward, ◌>>=◌, from_result, calling, Http, Web, length_of, checked_base, asked,
}

-- A step whose only traces are the faults that it met.
abbrev pub LeavesMachine : {A : Type 0} → Command A → Type 0
LeavesMachine m = (w : World) → calm (m w).1 ≡ calm w

module _ {A B : Type 0} where
  onward-eq-done :
      (r : Outcome A) (f : A → Command B) (w : World) (b : B) (w2 : World)
      → onward r f w ≡ (done b, w2)
      → (a : A) × (r ≡ done a) × (f a w ≡ (done b, w2))
  onward-eq-done (done a) f w b w2 h = (a, refl, h)
  onward-eq-done (failed why) f w b w2 h = absurd (cc h)

  -- A command that ended well went through its first step.
  pub >>=-eq-done :
      (m : Command A) (f : A → Command B) (w : World) (b : B) (w2 : World)
      → (m >>= f) w ≡ (done b, w2)
      → (a : A) × ((m w).0 ≡ done a) × (f a (m w).1 ≡ (done b, w2))
  >>=-eq-done m f w b w2 h = onward-eq-done (m w).0 f (m w).1 b w2 h

  pub >>=_done :
      (m : Command A) (f : A → Command B) (w w1 : World) (a : A)
      → m w ≡ (done a, w1)
      → (m >>= f) w ≡ f a w1
  >>=_done m f w w1 a e = rw e refl

read_file-machine : (path : Text) (w : World) → calm (read_file path w).1 ≡ calm w
unfolding read_file
read_file-machine path w = ground arith

pub load_aliases-machine :
    (json : Json Aliases) (dir : Text) (w : World) → calm (load_aliases json dir w).1 ≡ calm w
unfolding load_aliases
load_aliases-machine json dir w = read_file-machine (aliases_path dir) w

pub done-injective : {A : Type 0} {a b : A} → done a ≡ done b → a ≡ b
done-injective e = cc

-- A file that a command opened was there.
pub calling-read_file :
    (path : Text) (w : World) (b : Bytes)
    → (calling (read_file path) w).0 ≡ done b
    → w.files (resolve path) ≡ some b
unfolding calling from_result
calling-read_file path w b h = go (read_file path w).0 (read_file path w).1 refl h
  where
    go :
        (r : Result Bytes) (w1 : World)
        → read_file path w ≡ (r, w1)
        → from_result r ≡ done b
        → w.files (resolve path) ≡ some b
    go (ok x) w1 e g = read_file_ok path w w1 x e ∙ cc g
    go (err x) w1 e g = absurd (cc g)

pub read_file-LeavesMachine : (path : Text) → LeavesMachine (calling (read_file path))
unfolding calling
read_file-LeavesMachine path w = read_file-machine path w

pub new_client-LeavesMachine : (dir : Text) → LeavesMachine (new_client dir)
unfolding new_client read_addr_file
new_client-LeavesMachine dir w = ground (arith, read_file-machine (addr_file_path dir) w)

pub length_of-LeavesMachine :
    (http : Http) (path : Text) (b : Bytes) → LeavesMachine (length_of http path b)
unfolding length_of stat
length_of-LeavesMachine http path b w = ground (arith, read_file-machine path w)

pub checked_base-LeavesMachine : (http : Http) (c : Client) → LeavesMachine (checked_base http c)
unfolding checked_base
checked_base-LeavesMachine http c w = refl

-- What a request that was read well got: a reply of status 200, whose body decodes.
pub record Answered {A : Type 0} (web : Web) (c : Client) (decode : Bytes → Option A)
    (req : Request) (w : World) (a : A) (w' : World) : Type 0 where
  pub reply : Reply
  pub came : web c.base req w ≡ (replied reply, w')
  pub fine : reply.status ≡ status_ok
  pub decoded : decode reply.body.bytes ≡ some a

result_in-eq-done :
    {A : Type 0} (error_in : Bytes → Option Text) (decode : Bytes → Option A) (r : Reply) (a : A)
    → result_in error_in decode (done r) ≡ done a
    → (r.status ≡ status_ok) × (decode r.body.bytes ≡ some a)
unfolding result_in
result_in-eq-done error_in decode r a h = elim (Option-cases (decode r.body.bytes)) [
  | inl e ↦ absurd (ground (arith, e))
  | inr (x, e) ↦ (ground (arith, e), ground (arith, e))
]

pub asked-Answered :
    {A : Type 0} (web : Web) (http : Http) (c : Client) (decode : Bytes → Option A) (req : Request)
    (w w' : World) (a : A)
    → asked web http c decode req w ≡ (done a, w')
    → Answered web c decode req w a w'
unfolding asked do_request result_in
asked-Answered {A} web http c decode req w w' a h =
    go (web c.base req w).0 (web c.base req w).1 refl (ap (λ x. x.0) h) (ap (λ x. x.1) h)
  where
    go :
        (t : Transport Reply) (w1 : World)
        → web c.base req w ≡ (t, w1)
        → result_in http.error_in decode (do_request c t) ≡ done a
        → w1 ≡ w'
        → Answered web c decode req w a w'
    go (replied r) w1 e g same =
        let (fine, read) = result_in-eq-done http.error_in decode r a g in
        record { reply = r; came = e ∙ ap (λ x. (replied r, x)) same; fine = fine; decoded = read }
    go dial_failed w1 e g same = absurd (cc g)
    go other_failed w1 e g same = absurd (cc g)
