-- ===== src/Lib.antt =====
-- NanLang: its compilers to bytecode and to x86-64 executables, the machine that runs the bytecode, and
-- the tools for byte streams.
--
-- A source text is read line by line. src/nanlang_cpp.cpp has two ways from there: `compile_source`
-- makes NAN3 bytecode, which `run_bytecode` runs, and `parse_native_program` collects the texts that the
-- program writes, which `emit_native_payload` turns into machine code and `build_elf_image` into an
-- executable. src/nan_aot_compiler.cpp goes a third way: `Parser::parse` makes an IR, `x86_64Generator`
-- machine code of it, and `build_elf_executable` the file.
--
-- Base      Boolean tests, lists over native numbers, bytes, exclusive or.
-- Words     append_u16_le to append_u64_le and read_u32_le_ptr of src/nanlang_cpp.cpp.
-- Text      trim, strip_line_comment, starts_with_keyword, unescape_string, extract_quoted_string and
--           quote_for_log of src/nanlang_cpp.cpp. A std::string is the list of its bytes; a variant that
--           changes its argument in place is the function on values.
-- Signal    the tokens of pulse and emit, and the names that are printed.
-- Bytecode  Source and Compile are compile_source: a line is classified by the tests of its loop in
--           their order, and the state of the loop is the record Compile. Run is run_bytecode, one
--           function for each opcode. Meaning says what statements print, without bytecode. Encoding,
--           Emitted and Correct lead to the agreement of the two, Errors to the failures.
-- X86       the instructions that the generators emit, from the processor's manual: a decoder, and a
--           processor over an image in memory with the system calls write(1, ...) and exit. It is the
--           specification that the generated code is held against, and no part of the program.
-- Ring      what the two ring buffers share, and a bounded queue as their specification.
-- Pulse     AsyncPulseEmitter, SignalBuffer (Buffer) and PulseFlowAnalyzer (Flow) of include/nan_pulse.h.
-- Perf      WaitFreeQueue of include/nan_perf.h: Queue for one thread, Spsc with the loads and stores of a
--           producer and a consumer as steps of their own. A schedule is the list of whose step is next.
--           Reorder, Station and Deadlock are PipelineReorder, ReservationStation with BranchPredictor, and
--           DeadlockDetector.
-- Scheduler core_sync of kernel/scheduler.cpp: a spin lock, with the threads' steps in any order.
-- Coloring  RegisterColoring of include/nan_compiler.h.
-- Cache     the compile cache of src/nanlang_cpp.cpp: Meta is the binary metadata, Legacy its two older
--           text formats, Hit is write_native_cache_meta and cache_hit_native.
-- Arch      SIMDProcessor, ZeroCopySlice and RegisterMap of include/nan_arch.h; Emitter is
--           CrossPlatformEmitter of include/nan_compiler.h.
-- Npi       the package tool of src/nan_cli_lib.cpp: requirement files, Config, and Shell with the commands
--           that it runs. Quoted is a reader of quoted words after the POSIX shell, a specification. World is
--           what the system answers and the effects of a run, Build is run_build, Paths the search for
--           programs, Keeps the rules for invariants of the effects.
-- Command   the command line of src/nanlang_cpp.cpp: Args, resolve_compile_mode and parse_flag_output_mode;
--           Main is fast_path_compile_run and main, as the call that follows. Lookup, Options, Choices and
--           Entry are about its two parsers. Front is src/nanlang_cc.c.
-- Cli       src/nanlang_cli.cpp, and Main with src/npi_cli.cpp too. Tidy is about temporary files, Compile
--           about the way from `nanlang compile` to what nanlang_cpp does.
-- Tool      the older toolchain of main.cpp: its bytecode and runtime, and Options with its command line.
-- Ui        the directives of the user interface: tokenize_ui_directive here, handle_ui_directive in Emit,
--           Widgets, Chart and Directive, parse_ui_scene in Scene. Both readers use the same tokens.
-- Native    emit_native_payload with its emitters and patches; Program and Parse are NativeProgram and
--           parse_native_program, which calls Ui for a directive; Launcher is base64_encode and the text of
--           write_ui_launcher_script. Meaning is what the lines of a source write.
-- Elf       the two writers of executables. Load is a loader after the ELF specification.
-- Build     compile_native_source of src/nanlang_cpp.cpp over a file system of three files: the cache, the
--           parser and the writers together. Listing is the assembly text; Executes and Again are about
--           what a compilation leaves. A file that can be opened is written whole.
-- Aot       Ir, Generate, Parse and Registers are include/nan_aot_compiler.h and
--           src/nan_aot_compiler.cpp. Layout, Patch, Run, Correct, Program and Say lead from the source
--           text to what the executable does.
-- Binary    strip_nops, rle_compress, rle_decompress, hw_key_xor, the Hamming code, BinaryPatcher,
--           write_minimal_elf and embed_resources of include/nan_binary.h. Passes are BranchResolver,
--           ConstantFolder, NanLinker and SizeMinimizer of include/nan_compiler.h.
-- The modules named Tests hold runs on concrete inputs.
--
-- Fuel. A round of `run_loop` takes at least the opcode, so a round for each byte of a file is enough;
-- `stuck`, the outcome for the lack of fuel, is never reached. The processor is given exactly the number
-- of instructions that the generated code runs, five for a text and three for the exit.
--
-- The 20 digits of `decimal` are enough for 64 bits, and `count_blocks` and `hash_pieces` get a round for
-- each byte. A list has no greatest length: an allocation never fails, where `resize` may throw.
--
-- Not modelled: the bodies of system calls, which appear as arguments and results (the lines of a file, the
-- bytes of an image, what `stat` says, the status of a command, whether an output can be written); the
-- drawing of a scene and its mouse handlers, which are calls of GTK and cairo; build_native of main.cpp,
-- which writes a stub for another compiler; JITPulseGen of include/nan_compiler.h; DMAPulse and the allocators of include/nan_arch.h; the demonstrations.
-- What the system answers does not change during a run, but for what the run itself made.
pub mod Base
pub mod Words
pub mod Binary
pub mod Text
pub mod Signal
pub mod Ring
pub mod Pulse
pub mod Perf
pub mod Coloring
pub mod Cache
pub mod Npi
pub mod Command
pub mod Tool
pub mod Cli
pub mod Arch
pub mod Bytecode
pub mod X86
pub mod Ui
pub mod Native
pub mod Elf
pub mod Build
pub mod Scheduler
pub mod Aot
