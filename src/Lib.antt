-- ===== src/Lib.antt =====
-- LCA-1: the Python models and tools of a lattice-cryptography accelerator for ML-KEM and ML-DSA,
-- modelled as definitions that compute, with theorems about them.
--
-- The program has two halves. The models under model/ are the references that the hardware is
-- checked against: model/modarith.py is the shift-add arithmetic of a butterfly, model/fastmod.py
-- the fast reductions (K-RED for 3329, Solinas folds for 8380417) with the dispatcher of requests,
-- model/reference.py the commands of the arithmetic unit. The tools under tools/ work on files:
-- tools/power_trace_from_vcd.py parses a simulator's dump, counts toggles for each clock cycle,
-- writes a trace in the contract of model/power_contract.py and checks it against a JSON schema;
-- tools/tvla.py compares two sets of such traces at each sample point; tools/sram_area.py plans
-- memory banks; tools/gen_vectors.py writes the corpus of butterfly vectors that the hardware is
-- tested with; tools/bin_to_memhex.py writes memory images; tools/validate_fabrication.py checks
-- the manifests of the release; tools/gen_sbom.py lists what the design is made of;
-- bench/bridge_profile.py accounts for the operations of a bridge transfer.
--
-- Files:
-- Prelude             results for functions that raise, lists over the native naturals, integers
--                     with floor shifts and two's complement masks, remainders, binary digits
-- Floats              Python's float as operations without laws, an argument of every definition
--                     that uses them; Floats/Integers is an instance to evaluate with
-- Text                Python's str as lists of code points, with the methods the tools call
-- Dict                Python's dict with text keys
-- Json                what json.loads gives, with Python's equality and order
-- Modarith            model/modarith.py: validate_modulus, validate_residue, add_mod, sub_mod,
--                     mul_mod_shift_add, butterfly
-- Reference           model/reference.py: modulus, modmul, ct_butterfly, gs_butterfly, execute
-- Fastmod             model/fastmod.py: cond_sub, kred, k2red, reduce_kem, dsa_fold, reduce_dsa,
--                     mulmod, request_is_valid, execute
-- PowerContract       model/power_contract.py: ActivitySample.validate, PowerTrace.validate,
--                     PowerTrace.integrate_joules
-- Vcd                 tools/power_trace_from_vcd.py, the parser: the header's sections (Vcd/Sections,
--                     header_rounds), then one step for each line of the body (Vcd/Parse, read_line)
-- Activity            the same tool: hamming_distance, StateRules.classify, time_to_ns and
--                     compute_cycle_activity as a pass with a record of its local variables
-- Trace               the same tool: select_signals, resolve_signal, build_trace, generate
-- Schema              the same tool: validate_against_schema and trace_payload, with
--                     spec/power-trace.schema.json
-- Tvla                tools/tvla.py: the streaming statistics, load_series, assess, the report
-- Vectors             tools/gen_vectors.py: the cases, build_vectors
-- SramArea            tools/sram_area.py: the macro table, plan_bank, add_envelope,
--                     compare_to_reference, plan_to_dict, the plans of build_report, check
-- Fabrication         tools/validate_fabrication.py: the checks of the two release manifests, in the
--                     order of validate_contract; the files named Data hold the repository's
--                     manifests, which the tests validate
-- Sbom                tools/gen_sbom.py: component, parse_gitmodules, the collectors, build_bom
-- Memhex              tools/bin_to_memhex.py: the words and lines of a binary
-- BridgeProfile       bench/bridge_profile.py: validate, summarize
-- In each part Defs or the files named for operations hold the definitions, the other files the
-- theorems, named for what they prove, and Examples the tests.
--
-- Correspondence. A Python function that raises returns a Result whose errors are a data type of the
-- part; a loop over mutable locals is a recursion with those locals as arguments or as a record. A
-- list that functions append errors to is the list that each of them returns, joined in the order
-- of the calls. A function of the source keeps its name without a leading underscore.
--
-- Bounds and fuel. Integers are unbounded, as in Python; widths such as 2 ** 24 stand in the
-- theorems. The loop over the header's tokens runs on fuel, the number of tokens: every round
-- drops at least one. mul_mod_shift_add runs one round for each bit of its width, as the source
-- does. All other loops follow a list or a JSON document.
--
-- Modelled with a difference. Arguments have their annotated types, so isinstance tests pass and
-- their TypeErrors are left out. Lower-casing, digits and int() go by ASCII. fnmatch.fnmatch,
-- round(x, places), date.fromisoformat, float(text), base64, digests, str() of a number and the
-- draws of random.Random are arguments; of the draws it is assumed that randrange(q) is below q. A
-- quotient of integers that the source rounds through a float is rounded exactly, which agrees for
-- operands below 2 ** 52. Sizes in tools/sram_area.py are natural numbers. A list.sort by a float
-- key is a stable insertion sort. Floats are summed from the left. The metadata of a trace is a
-- record of the entries that depend on its input. An int and a float compare after the int is made
-- a float. A schema that is no dictionary, or whose keyword has a value of another type than JSON
-- Schema gives it, is the error malformed. In the release manifests a value that is iterated and is
-- no list is a crash, an empty text or dictionary included, and building a message never fails. A
-- message that names values holds a text and one value.
--
-- Not modelled. Command lines, files, printed text, digests, tool versions, the constant texts of
-- the metadata and of the reports, the regular expressions that search the workflows; the
-- remaining generators under tools/; the hardware description, the firmware and the third-party
-- trees, which are not Python.
pub mod Prelude
pub mod Modarith
pub mod Reference
pub mod Fastmod
pub mod Floats
pub mod Text
pub mod Dict
pub mod Vcd
pub mod Activity
pub mod PowerContract
pub mod SramArea
pub mod Trace
pub mod Vectors
pub mod Memhex
pub mod BridgeProfile
pub mod Json
pub mod Schema
pub mod Tvla
pub mod Fabrication
pub mod Sbom
