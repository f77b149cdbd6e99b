-- ===== src/Lib.antt =====
-- Ecasound: the engine with its signal routing, the chainsetup that it runs, and the data that
-- threads and objects share, from samples up to chains.
--
-- The program processes audio in chains. A chain (CHAIN) holds a list of effects, its chain
-- operators, and controllers that drive their parameters; the engine reads a block of samples from
-- each input into a sample buffer (SAMPLE_BUFFER), lets the chains that are connected to it process
-- a copy in place, and mixes the results into the outputs. Files can be read and written by a disk
-- thread, which shares a ring of sample buffers with the engine (AUDIO_IO_DB_BUFFER). An audio
-- object can also play a section of another one, once or in a loop (AUDIO_SEQUENCER_BASE). Formats
-- of samples are named by strings (ECA_AUDIO_FORMAT), and objects are created from option strings
-- such as "-ea:100,2", which the functions of kvutils take apart.
--
-- Files, each with the modules of the same name below it:
-- - DbBuffer: libecasound/audioio-db-buffer.cpp, every operation under the name it has there.
--   DbBuffer.Threads has the two threads of libecasound/audioio-db-client.cpp and
--   audioio-db-server.cpp around one ring, as interleaved steps, and DbBuffer.Client the end of a
--   file that they read.
-- - AudioFormat: libecasound/eca-audio-format.cpp and .h. A setter that can throw gives the object
--   as it is left and the error, if there is one.
-- - SampleBuffer: libecasound/samplebuffer.cpp: channels, length, silence, scaling, limits and
--   copies. A block of memory is a list as long as its allocation, and an access outside a block is
--   `none`. Samples have any type, and their arithmetic is an argument.
-- - Chain: libecasound/eca-chain.cpp. An object is the number of its address. An operation gives
--   the chain and the calls that it makes on operators, controllers and the buffer, in order;
--   Chain.Removal has remove_chain_operator and clear, Chain.Controllers the controllers and their
--   selection, Chain.Processing init, process, release and the sampling rate.
-- - Sequencer: libecasound/audioio-seqbase.cpp, with the positions of eca-audio-position.cpp that it
--   changes. The child object is a parameter: its position, and how many samples a read gives.
-- - Strings: kvutils/kvu_utils.cpp: tokens, escapes, blanks, comparison and replacement;
--   Strings.Arguments has the option strings.
-- - Engine: libecasound/eca-engine.cpp: the state of ECA_ENGINE and its transport control, with the
--   flags of devices and servers; calls on other objects are recorded in order. Engine.Commands has
--   the commands and changes of position, Engine.Iteration one iteration, and Engine.Driver the loop
--   of ECA_ENGINE_DEFAULT_DRIVER::exec and ECA_ENGINE::exec. Engine.Prefill has the silence that
--   realtime outputs are filled with, and latencies.
-- - Routing: inputs_to_chains and mix_to_outputs of libecasound/eca-engine.cpp, as the calls that
--   they make on buffers and audio objects, and what they count. One iteration of Engine takes those
--   counts; the numbers of attached chains that they go by are those of Chainsetup.
-- - Chainsetup: libecasound/eca-chainsetup.cpp: the vectors of audio objects and chains, attaching
--   and counting. Chainsetup.Removing adds and removes audio objects, Chainsetup.Members has the
--   chains with their names and their selection, each of which is a Chain; Chainsetup.Editing has
--   execute_edit, which the engine's edit command calls.
-- - Loop: libecasound/audioio-loop.cpp, with its buffer as the list of what has been added to it and
--   of the weights by which that was divided.
-- - MessageQueue: kvutils/kvu_message_queue.h, with the loop of the engine over its commands. Whether
--   the lock is free at an attempt is an argument, and what the other thread pushes between the
--   attempts; Engine.Commands counts the items that are got.
-- - Common: the names and lemmas that these share.
--
-- Bounds and fuel. Counts and positions are natural numbers, and integers where the program uses
-- negative ones; the ring's arithmetic on `size_t` wraps at 2 ^ 64, and its sizes are below 2 ^ 31.
-- Counts of operators, channels and samples are taken to stay far below the limits of their types.
-- The loops over option strings run on fuel of one round more than the string has characters, since
-- each round moves on in the string or shortens it; the loop that replaces strings takes its fuel as
-- an argument. The engine's main loop goes along a schedule, whose rounds say which commands arrive,
-- how many of them can be got before another thread takes the queue, and what the audio objects
-- report; a schedule is long enough for a run in batch mode if it has two rounds more than there are
-- buffers up to the maximum length. The erasure of controllers has one round for each controller.
--
-- Not modelled: the arithmetic of samples, which is in floating point; resampling, and the import
-- and export of raw data; names and texts for the user; logging; the checks of design by contract,
-- which do not change what the code does. Memory is never short. Characters are codes below 128 in
-- the "C" locale. Of the engine: the lists of objects that its constructor makes, waiting of other
-- threads, and profiling. Of the chainsetup: enabling, buffering modes and the parser of options.
-- Sessions, the control interface, file formats, effects and devices are not part of this library yet.
pub mod AudioFormat
pub mod Chain
pub mod Chainsetup
pub mod Common
pub mod DbBuffer
pub mod Engine
pub mod Loop
pub mod MessageQueue
pub mod Routing
pub mod SampleBuffer
pub mod Sequencer
pub mod Strings
