-- ===== src/Tests/Building.antt =====
-- The theorems on the tool that builds the image, with two small files.
use ze_ospi.Base.{
  chars, ℕ, ◌+◌, ◌-◌, ◌≡◌, refl, ap, sym, arith, List, [], ◌∷◌, ◌++◌, length, get_or, take, drop,
  replicate, ◌==◌, if◌then◌else◌, Option, none, some,
}
use ze_ospi.Utils.{Memory}
use ze_ospi.Startup.{kernel_start, ph_user_start, word_of, start}
use ze_ospi.Image
use ze_ospi.Image.{Host, BuildOutcome, returned, died, build, unexpected_eof}
use ze_ospi.Image.Files.{Posix, overwrite}
use ze_ospi.Image.Written.{Holds, build-image, header}
use ze_ospi.Image.Loaded.{HasAt, build-start}
use ze_ospi.Image.Failures.{Honest, After, build-After}
use ze_ospi.Tests.Programs.{linked, computer}

abbrev system : List ℕ
system = chars "system"

abbrev user : List ℕ
user = chars "user"

abbrev sys : List ℕ
sys = 9 ∷ replicate 1500 7

abbrev usr : List ℕ
usr = 1 ∷ 2 ∷ 3 ∷ []

abbrev find : List ℕ → Option (List ℕ)
find name = if get_or name 0 0 == 115 then some sys else some usr

-- A file is what is left of it, and the output its content and position.
abbrev host : Host
host = record {
  Source = List ℕ;
  Output = List ℕ × ℕ;
  open_file = find;
  fstat = λ s. some (length s);
  read = λ l s. (some (take l s), drop l s);
  write = λ bytes o. (some (length bytes), (overwrite (o.1) bytes (o.0), o.1 + length bytes));
  seek = λ offset o. (some offset, (o.0, offset));
}

abbrev posix : Posix host
posix = record {
  remaining = λ s. s;
  content = λ o. o.0;
  position = λ o. o.1;
  reads = λ l s le. (refl, refl);
  writes = λ bytes o le. (refl, refl, refl);
  seeks = λ offset o. (refl, refl, refl);
}

abbrev system_file : Holds posix system sys
system_file = record {
  source = sys;
  opened = refl;
  sized = refl;
  whole = refl;
  short = omega arith;
}

abbrev user_file : Holds posix user usr
user_file = record { source = usr; opened = refl; sized = refl; whole = refl; short = omega arith }

abbrev load : List ℕ → Memory
load bytes a = get_or bytes (a - kernel_start) 0

load-HasAt : (bytes : List ℕ) → HasAt (load bytes) kernel_start bytes
load-HasAt bytes i h =
    let back : kernel_start + i - kernel_start ≡ i = omega arith in ap (λ k. get_or bytes k 0) back

build-image_example :
    (o1 : host.Output) × (build host (system ∷ user ∷ []) ([], 0) ≡ returned tt o1)
    × (o1.0 ≡ header 1501 3 ++ drop 12 (sys ++ usr))
build-image_example = build-image posix system user sys usr ([], 0) system_file user_file refl refl

build-start_example :
    (o1 : host.Output) × (build host (system ∷ user ∷ []) ([], 0) ≡ returned tt o1)
    × (word_of (load (o1.0)) kernel_start ≡ 0xeb000001)
    × ((start linked 0x1001 [] (record computer { memory = load (o1.0) })).memory
          (ph_user_start + 2)
        ≡ 3)
build-start_example =
    build-start posix load system user sys usr ([], 0) linked 0x1001 [] computer 2 system_file
      user_file refl refl load-HasAt (omega arith) (omega arith) (omega arith) (omega arith)

-- `fstat` gives one byte more than the file has, and the second `read` is a byte short.
abbrev shrunk : Host
shrunk = record host { fstat = λ s. some (length s + 1) }

shrunk-died :
    (o1 : host.Output) × (build shrunk (system ∷ user ∷ []) ([], 0)
      ≡ died (unexpected_eof system) o1)
unfolding build Image.put_file Image.copy_file
shrunk-died = (_, refl)

abbrev content_of : Option (List ℕ) → List ℕ
content_of none = []
content_of (some bytes) = bytes

abbrev honest : Honest shrunk
honest = record {
  remaining = λ s. s;
  content = λ o. o.0;
  position = λ o. o.1;
  reads = λ l s bytes e full. (ap content_of (sym e), refl);
  writes = λ bytes o le e. (refl, refl);
  seeks = λ offset o e. (refl, refl);
}

build-After_example :
    After
      (λ u o1. o1.0 ≡ header 1502 4 ++ drop 12 (take 1502 sys ++ take 4 usr))
      (build shrunk (system ∷ user ∷ []) ([], 0))
build-After_example =
    build-After honest system user sys usr 1502 4 ([], 0) refl refl (omega arith) refl refl
      (omega arith) refl refl
