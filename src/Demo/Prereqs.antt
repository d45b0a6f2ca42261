-- ===== src/Demo/Prereqs.antt =====
-- demo/src/prereqs.ts: the build artifacts that the demo needs, and the message about missing ones.
-- Whether a file exists under the repository is an argument.
pub mod Builds
use near_shield.Prelude.{
  Bool, true, false, not, ◌||◌, List, [], ◌∷◌, ◌++◌, list_eq, if◌then◌else◌, Result, ok, err,
  missing_artifacts,
}
use near_shield.Js.Text.{Text, codes}

pub record Prereq : Type 0 where
  pub description : Text
  pub rel_path : Text
  pub build : Text

abbrev pub circuits : List Text
circuits = codes "deposit" ∷ codes "transfer" ∷ codes "withdraw" ∷ []

abbrev pub contract_prereqs : List Prereq
contract_prereqs =
    record {
      description = codes "shielded-pool deployable WASM (groth16-verifier, wasm-opt'd)";
      rel_path = codes "target/wasm32-unknown-unknown/release/shielded_pool.opt.wasm";
      build =
          codes
            "cargo build -p shielded-pool --target wasm32-unknown-unknown --release --no-default-features --features groth16-verifier && \\\n"
          ++ codes
              "wasm-opt --enable-bulk-memory --llvm-memory-copy-fill-lowering -Oz --strip-debug --strip-producers \\\n"
          ++ codes "  target/wasm32-unknown-unknown/release/shielded_pool.wasm \\\n"
          ++ codes "  -o target/wasm32-unknown-unknown/release/shielded_pool.opt.wasm\n"
          ++ codes "# Or simply: bash scripts/check-production-readiness.sh";
    }
    ∷ record {
      description =
          codes
            "mock-ft (NEP-141) WASM (wasm-opt'd; raw build emits bulk-memory ops the sandbox rejects)";
      rel_path = codes "target/wasm32-unknown-unknown/release/mock_ft.opt.wasm";
      build =
          codes
            "cargo build -p mock-ft --target wasm32-unknown-unknown --release --no-default-features && \\\n"
          ++ codes
              "wasm-opt --enable-bulk-memory --llvm-memory-copy-fill-lowering -Oz --strip-debug --strip-producers \\\n"
          ++ codes "  target/wasm32-unknown-unknown/release/mock_ft.wasm \\\n"
          ++ codes "  -o target/wasm32-unknown-unknown/release/mock_ft.opt.wasm";
    }
    ∷ []

abbrev pub build_circuits : Text
build_circuits = codes "pnpm --filter @shielded-near/circom build"

abbrev pub dev_setup : Text
dev_setup = codes "bash circom/scripts/dev-setup.sh"

unfoldable pub circuit_prereqs : Text → List Prereq
circuit_prereqs c =
    record {
      description = c ++ codes " circom R1CS";
      rel_path = codes "circom/build/" ++ c ++ codes ".r1cs";
      build = build_circuits;
    }
    ∷ record {
      description = c ++ codes " circom WASM";
      rel_path = codes "circom/build/" ++ c ++ codes "_js/" ++ c ++ codes ".wasm";
      build = build_circuits;
    }
    ∷ record {
      description = c ++ codes " dev proving key";
      rel_path = codes "circom/build/keys/" ++ c ++ codes "_dev.zkey";
      build = dev_setup;
    }
    ∷ record {
      description = c ++ codes " verification key JSON";
      rel_path = codes "circom/build/keys/" ++ c ++ codes "_vk.json";
      build = dev_setup;
    }
    ∷ []

-- The loop over the circuits.
unfoldable pub push_circuits : List Text → List Prereq
push_circuits [] = []
push_circuits (c ∷ cs) = circuit_prereqs c ++ push_circuits cs

unfoldable pub get_prereqs : List Prereq
get_prereqs = contract_prereqs ++ push_circuits circuits

unfoldable pub missing_prereqs : (Text → Bool) → List Prereq → List Prereq
missing_prereqs exists [] = []
missing_prereqs exists (p ∷ ps) =
    let rest = missing_prereqs exists ps in if not (exists p.rel_path) then p ∷ rest else rest

unfoldable pub seen_build : List Text → Text → Bool
seen_build [] b = false
seen_build (x ∷ xs) b = list_eq x b || seen_build xs b

-- The builds that are listed, behind the ones in `seen`.
unfoldable pub new_builds : List Text → List Prereq → List Text
new_builds seen [] = []
new_builds seen (m ∷ ms) =
    let fresh = m.build ∷ new_builds (seen ++ m.build ∷ []) ms in
    let rest = new_builds seen ms in if seen_build seen m.build then rest else fresh

unfoldable pub artifact_lines : List Prereq → List Text
artifact_lines [] = []
artifact_lines (m ∷ ms) =
    (codes "  - " ++ m.rel_path ++ codes "  (" ++ m.description ++ codes ")") ∷ artifact_lines ms

unfoldable pub build_lines : List Text → List Text
build_lines [] = []
build_lines (b ∷ bs) = [] ∷ b ∷ build_lines bs

-- `lines.join("\n")`
unfoldable pub join_lines : List Text → Text
join_lines [] = []
join_lines (l ∷ []) = l
join_lines (l ∷ m ∷ ls) = l ++ (codes "\n" ++ join_lines (m ∷ ls))

unfoldable pub missing_message : List Prereq → Text
missing_message missing = join_lines (
    codes "Missing build artifacts:\n"
    ∷ (artifact_lines missing ++ codes "\nBuild commands:" ∷ build_lines (new_builds [] missing)))

abbrev pub report : List Prereq → Result (Unit {0})
report [] = ok tt
report (m ∷ ms) = err (missing_artifacts (missing_message (m ∷ ms)))

unfoldable pub assert_prereqs : (Text → Bool) → Result (Unit {0})
assert_prereqs exists = report (missing_prereqs exists get_prereqs)
