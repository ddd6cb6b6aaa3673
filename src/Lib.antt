-- ===== src/Lib.antt =====
-- glgrab grabs the frames of an OpenGL program into a ring buffer in shared memory, from which an
-- FFmpeg input format takes them. This library models the ring buffer, the pixel conversion, the
-- grabber, whose frames go through the one into the other, the hooks for GLX and EGL that call the
-- grabber, the linker audit that calls the hooks, the CUDA engine, and the input format, which
-- reads the ring buffer.
--
-- Parts:
--   Base         names and lemmas that the other modules share
--   Mrb          mrb.h, mrb_int.h, mrb_write.c, mrb_read.c: the ring buffer. A handle
--                (`struct mrb`) is `Mrb.Mrb`, and what the processes share (the header page and the
--                data) is `Mrb.Shared`. A pointer into the data is an offset, and the memory holds
--                the word at each offset; mrb_create maps the start of the data behind its end once
--                more, so that an offset and the same offset plus the size are one place.
--     Write, Create    mrb_reserve, mrb_commit, mrb_create, mrb_shutdown
--     Read             mrb_check, mrb_reveal, mrb_release, mrb_open, mrb_close. A reader runs beside
--                      the writer, so a reader's function takes the shared memory as each of its
--                      atomic loads finds it.
--     Chain, Reclaim, Next, Reserve, Commit, Created, Session    the writer's correctness: the
--                      buffer is a chain of messages from the head to the tail
--     Kept, Held, Interleaved, Released, Oldest    a reader beside the writer: what becomes of one
--                      message in the writer's steps, what a reader has read if mrb_check passes,
--                      and where mrb_release and mrb_reveal go on
--     Followed         a reader that waits at the tail: `Rounds` is its loop beside the writer,
--                      `Lost` what it does when the buffer is empty
--     Numbers, Pointer, Numbering    rounding, pointers, sequence numbers
--     Drain            the reader's loop
--     Described, Opened    a reader that opens the buffer of a writer
--   Yuv          rgba2yuv420p.c, the scalar version: from RGBA to planar YUV 4:2:0. `Yuv.Range` is
--                about one square of pixels, `Yuv.Block` about one row, `Yuv.Frame` about the whole.
--     Simd       the vector version. The compiler's intrinsics are the record `Intrinsics`, and
--                `Simd.Documented` says what their documentation does. `Simd.Lanes`, `Products`,
--                `Pixels`, `Block`, `Rows` and `Frame` go from one vector to the whole frame, and
--                `Simd.Close` compares the versions. The source's navg and avg are `vector_navg`
--                and `vector_avg` here.
--   Grab         glgrab.c: `struct glgrab` is `Grab.Glgrab`. What OpenGL, the engines and the
--                clock answer is an argument. `Grab.Calls` has the calls of OpenGL of
--                glgrab_take_frame and of the readpixels engine, `Grab.Calls.Effects` what they
--                do to the state of OpenGL by its reference pages, `Grab.Calls.Taken` what the
--                application finds. `Grab.Exclusive` is about threads, `Grab.Lifecycle` about the
--                functions that make and reset a grabber, `Grab.Align` about sizes, `Grab.Lawful`
--                about glgrab_take_frame as a client of the ring buffer.
--   Context      what glx.c and egl.c do alike at a swap of buffers: a context claims the grabber.
--   Glx          glx.c: the list of windows with `find_x11` and the hooks that change it. `Glx.Swap`
--                has the hooks for glXSwapBuffers and glXDestroyContext, `Glx.Run` runs them in any
--                order. `Glx.Threads` has the list as nodes on the heap behind the spin lock, with
--                threads whose hooks overlap: `Exclusive` is about the lock, `Memory` about the list
--                of nodes, `Safe`, `Moves`, `Made`, `Listed` and `Heap` about the heap, `Entries`
--                and `Linear` about the one-step functions that the threads' work comes to.
--   Egl          egl.c: the hooks for eglSwapBuffers and eglDestroyContext, and `Egl.Run`. The names
--                that glx.c has too begin with egl here.
--   Audit        audit.c and audit.h: `la_symbind` and `apply_sub`. `Audit.Glx` and `Audit.Egl` are
--                audit-glx.c and audit-egl.c, the tables and the functions that are given out;
--                `Audit.Bindings` is about what a program calls in the end. `Audit.Objopen` is
--                `la_version` and `la_objopen`, with the change of an object's dynamic section.
--   Preload      the constructors of glx.c and egl.c, whose lookups tell the audit the hooks.
--   Avformat     avformat.c: `struct glgrab_priv` is `Avformat.Priv`. One round of the loop of
--                read_packet is `read_round`, which ends in a `Verdict`: a return, a sleep, or the
--                next round. `Avformat.Loop` is a rule for the loop, `Avformat.Packets` is about the
--                memory of packets, `Avformat.Order` about timestamps, `Avformat.Nearest` about two
--                frames for one timestamp, `Avformat.Ends` about the end of the loop.
--   Cuda         cuda.c: the chains of calls of the CUDA runtime, whose answers are arguments.
--
-- Loads and stores of the processes take effect one after the other, in the order of the code.
--
-- Integers are natural numbers, and the wrap-around of each width is written out where the source
-- can wrap. The loop of mrb_reserve runs on fuel, one round for each message that fits the buffer
-- and one more, and each round drops a message. The loop of ilog has 64 rounds, the bits of its
-- argument. read_packet takes the list of the rounds that it may make, each with what it finds;
-- `Avformat.Ends` says how many are enough. The loops of la_objopen have fuel for the entries of the
-- table and for the words before the first that points into it.
-- In a writer's session the requests are of sizes that wrap no sum in mrb_reserve, which is so
-- where the size and that of the buffer come to 2^64 - 128 at most.
--
-- Not modelled: OpenGL, CUDA, X11, EGL, FFmpeg and the dynamic linker, which are not part of the
-- repository: what they answer is an argument. Of the repository: the messages of glgrab.c, and
-- avformat-preload.c, which registers the format. The option poll is taken in whole nanoseconds,
-- where the source has a float. Hooks of threads overlap in `Glx.Threads` on the list of windows,
-- and with the grabber's lock in `Grab.Exclusive`; they do not in `Glx.Run` and `Egl.Run`, which are
-- about the context.
pub mod Base
pub mod Mrb
pub mod Yuv
pub mod Grab
pub mod Glx
pub mod Cuda
pub mod Avformat
pub mod Audit
pub mod Context
pub mod Egl
pub mod Preload
