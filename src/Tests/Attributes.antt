-- ===== src/Tests/Attributes.antt =====
-- Three data runs.
use recoverx_cli.Prelude.{◌≡◌, refl, true, false, some, List, [], ◌∷◌, ◌++◌, arith}
use recoverx_cli.Prelude.Int.{pos, negsuc}
use recoverx_cli.Utils.RawReader.{Bytes}
use recoverx_cli.Utils.Unpack.{uint}
use recoverx_cli.Ntfs.Runlist.Mapping.{RawRun}
use recoverx_cli.Ntfs.Attributes.{parse_runlist, parse_from, parse_entry, read_data_run, signed}
use recoverx_cli.Ntfs.Attributes.RoundTrip.{RunEntry, AllFit, encode, parse_runlist-encode}

-- 24 clusters at 0x5634, then 16 clusters that begin 3 clusters before, and a sparse run of 4
abbrev runs : List RawRun
runs =
    record { cluster_count = 24; cluster_offset = pos 0x5634; is_sparse = false }
    ∷ record { cluster_count = 16; cluster_offset = negsuc 2; is_sparse = false }
    ∷ record { cluster_count = 4; cluster_offset = pos 0; is_sparse = true }
    ∷ []

abbrev bytes : Bytes
bytes = 9 ∷ 0x21 ∷ 0x18 ∷ 0x34 ∷ 0x56 ∷ 0x11 ∷ 16 ∷ 0xFD ∷ 0x01 ∷ 4 ∷ 0 ∷ 7 ∷ []

program : Unit {0}
unfolding parse_runlist parse_from parse_entry read_data_run signed uint
program = tt

parses_runs : parse_runlist bytes 1 ≡ some runs
unfolding program
parses_runs = refl

abbrev entries : List RunEntry
entries =
    record {
      count_bytes = 1;
      offset_bytes = 2;
      run = record { cluster_count = 24; cluster_offset = pos 0x5634; is_sparse = false };
    }
    ∷ record {
      count_bytes = 1;
      offset_bytes = 1;
      run = record { cluster_count = 16; cluster_offset = negsuc 2; is_sparse = false };
    }
    ∷ record {
      count_bytes = 1;
      offset_bytes = 0;
      run = record { cluster_count = 4; cluster_offset = pos 0; is_sparse = true };
    }
    ∷ []

entries-AllFit : AllFit entries
entries-AllFit = (
  record {
    not_end = omega arith;
    count_width = omega arith;
    offset_width = omega arith;
    count = omega arith;
    offset = omega arith;
    sparse = refl;
  },
  (
    record {
      not_end = omega arith;
      count_width = omega arith;
      offset_width = omega arith;
      count = omega arith;
      offset = (omega arith, omega arith);
      sparse = refl;
    },
    (
      record {
        not_end = omega arith;
        count_width = omega arith;
        offset_width = omega arith;
        count = omega arith;
        offset = omega arith;
        sparse = refl;
      },
      tt,
    ),
  ),
)

parse_runlist-encode_example : parse_runlist ((9 ∷ []) ++ (encode entries ++ 7 ∷ [])) 1 ≡ some runs
parse_runlist-encode_example = parse_runlist-encode (9 ∷ []) (7 ∷ []) entries entries-AllFit
