-- ===== src/Tests/Files.antt =====
-- Tests of paths and ports.
use haze.Base.{
  ℕ, ◌≡◌, ◌≤◌, ◌<◌, ◌⊎◌, refl, arith, List, [], ◌∷◌, ◌++◌, some, true, false, none, Bool, ltb,
  length,
}
use haze.Memory.{Heap, planned}
use haze.Audio.SampleList.{decimal_fuel}
use haze.Session.{session_get_name}
use haze.Wire.Mpack.{Tag}
use haze.Fs.{Joined, Paths, paths_get, bytes_of}
use haze.Fs.Registry.{FixedWriter, WritesFixed, InstanceReg, new_registry}
use haze.Fs.Registry.Ports.{port_found_again}
use haze.Fs.Registry.File.{
  reg_bytes, content_of, Accounted, new_registry_writes, new_registry-Accounted,
}
use haze.Tests.Codec.{encode}
use haze.Tests.Sessions.{session}
use haze.Tests.{ample, text}
use haze.Fs.{join_from, last_port}
use haze.Fs.Laws.{written, join_bounded, last_port_lem, Covers, Stands}

abbrev pub home : List ℕ
home = b'/' ∷ b'h' ∷ []

join_bounded_example : written (join_from [] (home ∷ home ∷ [])) ≤ 4095
join_bounded_example = join_bounded (home ∷ home ∷ [])

abbrev ports : List (List ℕ)
ports = (b'7' ∷ b'0' ∷ []) ∷ (b'9' ∷ b'0' ∷ []) ∷ (b'.' ∷ []) ∷ []

last_port_lem_example :
    (0 < last_port (some ports))
    × (last_port (some ports) ≤ 65535)
    × Covers ports (last_port (some ports))
    × ((last_port (some ports) ≡ 7191) ⊎ Stands ports (last_port (some ports)))
last_port_lem_example = last_port_lem ports

-- The base directory's copy is the third allocation.
abbrev scarce : Heap
scarce = record { plan = planned (true ∷ true ∷ false ∷ []); live = 10 }

port_found_again_example : 7192 ≤ last_port (some (home ∷ decimal_fuel 7192 7192 ∷ ports))
port_found_again_example = port_found_again (home ∷ []) ports 7192 (omega arith)

-- A writer that keeps its size and all bytes.
abbrev pub fixed_writer : FixedWriter (ℕ × List ℕ)
fixed_writer = record {
  init = λ n. (n, []);
  start_map = λ n w. (w.0, w.1 ++ encode (Tag.map n));
  write_cstr = λ s w. (w.0, w.1 ++ (encode (Tag.str (length s)) ++ s));
  write_u64 = λ n w. (w.0, w.1 ++ encode (Tag.uint n));
  write_u16 = λ n w. (w.0, w.1 ++ encode (Tag.uint n));
  finish_map = λ w. w;
  writer_failed = λ w. ltb w.0 (length w.1);
  used = λ w. w.1;
}

fixed_writer-WritesFixed : WritesFixed fixed_writer encode
fixed_writer-WritesFixed = record {
  output = λ w. w.1;
  size = λ w. w.0;
  output_init = λ n. refl;
  size_init = λ n. refl;
  output_map = λ n w. refl;
  size_map = λ n w. refl;
  output_cstr = λ s w. refl;
  size_cstr = λ s w. refl;
  output_u64 = λ n w. refl;
  size_u64 = λ n w. refl;
  output_u16 = λ n w. refl;
  size_u16 = λ n w. refl;
  output_finish = λ w. refl;
  size_finish = λ w. refl;
  failed_if_full = λ w. refl;
  used_output = λ w fits. refl;
}

abbrev paths : Paths
paths = record {
  home = none;
  config = none;
  data_dir = none;
  cache = none;
  projects = none;
  samples = none;
  themes = none;
  plugins = none;
  logs = none;
  instances = some (Joined.text home);
}

abbrev registered : InstanceReg
registered = record {
  pid = 5;
  session_name = some text;
  port = 7192;
  created_at = 90;
  path = some (join_from [] (home ∷ decimal_fuel 7192 7192 ∷ []));
  is_open = false;
}

unfoldable pub opens_all : List ℕ → Bool
opens_all path = true

new_registry_writes_example :
    (new_registry fixed_writer opens_all 5 session paths 7192 ample).0
    ≡ content_of registered (reg_bytes encode registered text)
unfolding opens_all paths_get bytes_of session_get_name
new_registry_writes_example =
    new_registry_writes fixed_writer encode fixed_writer-WritesFixed opens_all 5 session paths 7192
      ample (Joined.text home) refl (λ path. refl) refl

-- fopen fails.
abbrev opens_none : List ℕ → Bool
opens_none path = false

new_registry-Accounted_example :
    let t = new_registry fixed_writer opens_none 5 session paths 7192 ample in
    Accounted t.0 10 t.1.live
new_registry-Accounted_example =
    new_registry-Accounted fixed_writer opens_none 5 session paths 7192 ample
