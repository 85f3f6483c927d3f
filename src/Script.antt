-- ===== src/Script.antt =====
-- Python code that talks to the machine: what the scripts are given (`Machine`), what they change
-- (`World`), and exceptions. Every call that waits on the machine takes one tick; the machine's
-- part, failures and interrupts included, is a function of the tick, so a theorem over all
-- machines covers every course of events. Printing is left out.
pub mod Files
pub mod Checked
pub mod Success
pub mod Rules
pub mod Frame
use see_size.Base.{ℕ, suc, String, Bool, true, false, Option, none, some, List, ◌∷◌}
use see_size.Fs.{Fs, FilePath, Bytes}
use see_size.Json.{Json}

-- The exceptions by what catches them. `crash` is a TypeError, a KeyError and their like, which
-- no handler of the scripts names.
pub data Exc : Type 0 where
  value_error : String → Exc
  runtime_error : String → Exc
  os_error : Exc
  process_error : Exc
  crash : Exc
  system_exit : String → Exc
  interrupt : Exc

-- `except Exception`
abbrev pub is_exception : Exc → Bool
is_exception interrupt = false
is_exception (system_exit s) = false
is_exception _ = true

-- How a call that changes a file ends: a write that fails may leave a part of the bytes.
pub data Fate : Type 0 where
  fine : Fate
  fails : Exc → Option Bytes → Fate

pub data Result {ℓ} (A : Type ℓ) : Type ℓ where
  ok : A → Result A
  err : Exc → Result A

-- A finished command: its exit status, or the exception where it timed out, did not start or was
-- interrupted; its output, and the files as they are then.
pub record Reply : Type 0 where
  pub ending : Result ℕ
  pub stdout : String
  pub fs : Fs

-- What ends an attempt at a download other than its last byte.
pub data Trouble : Type 0 where
  http_error : ℕ → Trouble
  tls_error network_error deadline cancelled : Trouble

-- The Content-Length header as `int(…)` reads it.
pub data Length : Type 0 where
  absent malformed negative : Length
  size : ℕ → Length

-- One attempt: no response, or a response with its header, its chunks, and what cuts it off.
pub data Attempt : Type 0 where
  refused : Trouble → Attempt
  answered : Length → List Bytes → Option Trouble → Attempt

-- `urllib.parse.urlsplit`. The port is none where reading it raises a ValueError.
pub record Url : Type 0 where
  pub scheme : String
  pub hostname : Option String
  pub username : Option String
  pub password : Option String
  pub path : String
  pub query : String
  pub fragment : String
  pub port : Option (Option ℕ)

-- The code outside the repository, and the surroundings.
pub record Machine : Type 0 where
  pub fate : ℕ → Fate
  pub shell : ℕ → List String → Fs → Reply
  pub typed : ℕ → Option String
  pub clock : ℕ → ℕ
  pub temp_name : ℕ → String
  pub download : ℕ → String → Attempt
  pub account : ℕ → String → Option ℕ
  pub euid : ℕ
  pub system : String
  pub architecture : String
  pub which : String → Bool
  pub free_bytes : ℕ → ℕ
  pub is_terminal : Bool
  pub own_file : FilePath
  pub home : FilePath
  pub temp_folder : FilePath
  pub absolute : String → FilePath
  pub now_text : ℕ → String
  pub urlsplit : String → Option Url
  pub decimal : ℕ → Bool
  pub shlex_split : List ℕ → Option (List String)
  pub sha256 : Bytes → String
  pub loads : Bytes → Option Json
  pub dumps : Json → Bytes
  pub dump_indented : Json → Bytes

pub record World : Type 0 where
  pub fs : Fs
  pub tick : ℕ
  pub commands : List (List String)

abbrev pub Action : Type 0 → Type 0
Action A = World → Result A × World

abbrev pub raise : {A : Type 0} → Exc → Action A
raise e = λ w. (err e, w)

abbrev pub pure : {A : Type 0} → A → Action A
pure a = λ w. (ok a, w)

infixl 5 ◌>>=◌ ◌>>◌
unfoldable pub ◌>>=◌ : {A B : Type 0} → Action A → (A → Action B) → Action B
◌>>=◌ m f w = let (r, w') = m w in elim r [ ok a ↦ f a w' | err e ↦ (err e, w') ]

abbrev pub ◌>>◌ : {A B : Type 0} → Action A → Action B → Action B
m >> k = m >>= λ _. k

-- `if test: raise e`
abbrev pub raise_if : Bool → Exc → Action (Unit {0})
raise_if true e w = (err e, w)
raise_if false e w = (ok tt, w)

-- `try: m  except …: handler`
unfoldable pub catch : {A : Type 0} → Action A → (Exc → Action A) → Action A
catch m h w = let (r, w') = m w in elim r [ ok a ↦ (ok a, w') | err e ↦ h e w' ]

-- `try: m  finally: last`; an exception of `last` takes the other's place.
unfoldable pub finally : {A : Type 0} → Action A → Action (Unit {0}) → Action A
finally m last w =
    let (r, w') = m w in let (s, w'') = last w' in elim s [ ok u ↦ (r, w'') | err e ↦ (err e, w'') ]

abbrev pub gets : {A : Type 0} → (Fs → A) → Action A
gets f w = (ok (f w.fs), w)

abbrev pub or_raise : {A : Type 0} → Option A → Exc → Action A
or_raise none e = raise e
or_raise (some a) e = pure a

-- `for x in xs: body(x)`
unfoldable pub each : {A : Type 0} → List A → (A → Action (Unit {0})) → Action (Unit {0})
each List.[] f = pure tt
each (x ∷ xs) f = f x >> each xs f
