-- ===== src/Lib.antt =====
-- Soundcan runs audio plugins in containers. This library models the parts of its C code that hold
-- state of their own and that other parts rely on.
--
-- The plugin host, ATTIC/galv/golang/jalv, runs an LV2 plugin in an audio thread. The UI and the audio
-- thread talk through two rings of bytes, plugin work goes to a worker thread, URIs become numbers in
-- a symbol table, and MIDI and atoms pass through event buffers.
--
--   Jalv.Symap    symap.c: `Symap` is SymapImpl, with the symbols in order of their IDs and the sorted
--                 index; symap_map, symap_try_map and symap_unmap keep their names. A flag of `Heap`
--                 tells whether each allocation succeeds. The search runs on fuel: its interval
--                 shrinks by one at least in a round, so one more than the size is enough.
--   Jalv.Evbuf    lv2_evbuf.c: `Evbuf` is LV2_Evbuf_Impl, with its memory as a function from offsets
--                 to bytes. Sizes wrap at 2^32. `none` is a write outside the allocation, or a failed
--                 assertion of a write.
--   Jalv.Comm     comm.h and comm.c: the messages as bytes in a ring; floats are bit patterns.
--   Jalv.Types, Jalv.Process
--                 types.h, process.h and process.c: apply_ui_events and its branches. `none` is a
--                 failed assertion, an access to a port out of bounds or the end of the fuel. A round of the
--                 loop takes 8 bytes of the ring at least, so the number of bytes and one is enough.
--   Jalv.Worker   worker.c: `Worker` is JalvWorkerImpl. Worker.Threads has the steps of the audio
--                 thread and of the worker thread, in any order. jalv_worker_emit_responses runs on
--                 the number of bytes and one, of which a round takes 4 at least.
--   Jalv.Setup    process_setup.c, and create_port and jalv_create_ports of jalv.c: from what lilv
--                 answers about the ports to the state that the audio thread starts with.
--   Jalv.Cycle, Jalv.JackBackend, Jalv.JackLatency
--                 jalv_run, and jack.c: a cycle of the audio thread with its transport, its MIDI input
--                 and output, and the latency callback. deliver_events runs on the size of the buffer
--                 and one, of which an event takes 16 bytes at least.
--   Jalv.Console  jalv_console.c: jalv_frontend_init over the words of the command line; Commands has
--                 jalv_process_command over what sscanf takes from a line.
--   Jalv.Controls control.c, and jalv.c: the controls of the ports and the properties, their list with
--                 its searches, and the setting of a control.
--   Jalv.Update   jalv.c: jalv_update, which tells the UI what the audio thread has written. A round
--                 takes a byte of the ring at least, so the number of bytes and one is enough.
--   Jalv.State    state.c: set_port_value, by which a preset sets a port.
--   Jalv.Host     jalv.c: the workers through jalv_open, jalv_activate and jalv_deactivate, and
--                 jalv_send_to_plugin, by which the UI writes.
--
-- The PipeWire host, ATTIC/lv2-pw-host/lph, runs a plugin in a PipeWire filter.
--
--   Lph.Ports     ports.c and lph.c: init_ports, the calls of setup, and on_process.
--   Lph.AtomInput ports.c: pre_run_atom_input, which turns the MIDI of a PipeWire buffer into the LV2
--                 sequence that the plugin reads, in a buffer of 8192 bytes. `none` is an access out
--                 of bounds.
--   Lph.AtomOutput
--                 ports.c: post_run_atom_output, from the sequence that the plugin leaves to the MIDI
--                 that PipeWire gets. A round of its loop takes 16 bytes of the size, unless the size
--                 of an event wraps; then the fuel, the size and one, ends, which is `none`.
--   Lph.UriTable  constants.c: uri_table_map and uri_table_unmap, over the list of the strings.
--
-- The web interface of fluidsynth, ATTIC/fluidsynth/fluid-ui, serves a page and passes the values of
-- its controls to fluidsynth as commands. An Outcome is a value, `never` for a call that does not
-- return, or `broken` for an access outside an array, of a size that the code fixes, or a read of what
-- was never written.
--
--   Fluid.Client  fluid-tcp-client.c: runCommand over the reads of its socket. The bytes are not 0.
--   Fluid.Controls
--                 fluid-controls.c: Table has each read and write function as a Reader or a Writer, and
--                 `controls`, less its end mark; Instances has initControl and the list in JSON. Its
--                 rows take a character each at least, so the number of characters and one is enough.
--   Fluid.Server  server.c: the loop of main over the texts of the requests, the routes and the pages.
--   Fluid.Tokens, Fluid.Outcome
--                 strtok, and how a piece of the code ends.
--
-- The organ's plugin, ATTIC/setbfree, turns the changes of its control ports into MIDI.
--
--   Setbfree      plugin.c: Instance makes and connects an instance, Midi has the messages of the ports,
--                 and Run a cycle. `none` is a read of NULL or an access outside an array.
--
--   Base, CText   shared lists, memory and chains of options; strcmp over strings of characters.
--   Lv2, Abi, Zix what the code uses of its libraries, as records of operations and of their laws: the
--                 layout of LV2 atoms and lv2_atom_pad_size, the four bytes of a 32 bit word, and the
--                 ring of zix, which takes what fits and nothing else. Abi.Floats has what is used of
--                 floating point numbers, and Jack the MIDI buffers of JACK. Every theorem holds for any
--                 implementation of them; Tests has one of each.
--   Tests         runs at small inputs.
--
-- How they meet: Jalv.Host and Jalv.Comm write the messages that Jalv.Process applies; Jalv.Process
-- writes into the buffers of Jalv.Evbuf, which Jalv.Setup makes; Jalv.Host makes and launches the
-- workers of Jalv.Worker.
--
-- In Fluid, Server calls Controls, and Controls calls Client.
--
-- Not modelled: freeing of memory; the calls of lilv, suil, JACK and PipeWire, whose answers are
-- arguments where the code decides on them; files, terminal and sockets; the state of the host but
-- for set_port_value; the lock of mapper.c; the setting up of a JACK client; a failing strdup in
-- constants.c; a failing allocation of the ring of requests, which jalv_worker_new does not test;
-- the assertion of lv2_evbuf_get_size; the rest of lph.c; fluid-ui.c, which is not built;
-- sfizz/FilePool.cpp, a file of another project; the other programs (ATTIC/session, ATTIC/ui).
pub mod Base
pub mod Jack
pub mod CText
pub mod Lv2
pub mod Zix
pub mod Abi
pub mod Jalv
pub mod Lph
pub mod Fluid
pub mod Setbfree
pub mod Tests
