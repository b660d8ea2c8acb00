-- ===== src/Lib.antt =====
-- The core of the compositor: when it wakes up for a vblank, which window gets the focus, when a
-- frame of a window is finished and latched, which refresh rate the display gets, how command
-- buffers are recorded, submitted and reused, how a frame gets to a display by an atomic commit or
-- to Sunshine, and how the EDID that games see is made.
--
-- The compositor's main loop (src/steamcompmgr.cpp) is driven by CVBlankTimer
-- (src/vblankmanager.cpp), which computes the next wakeup from the refresh rate and from how long
-- the last frames took to draw, and hands over one vblank each time that it fires. At a vblank the
-- loop takes the finished commits whose time has come, marks them in their windows' commit queues,
-- decides whether to repaint, and lets the windows draw their next frame. Which windows are shown
-- follows from the focus, which is chosen anew whenever a window or what Steam asks for changes. A
-- commit gets into the list of finished ones when its fence signals (src/commit.cpp); what is shown
-- is drawn by command buffers (src/rendervulkan.cpp), which the device takes back when the GPU is
-- done. A backend presents it: the one for DRM (src/Backends/DRMBackend.cpp) asks libliftoff to
-- spread the layers over planes and commits the request to the kernel; the one for Sunshine
-- (src/Backends/SunshineBackend.cpp) draws into one of three slots and hands it over to the Wayland
-- thread (src/wlserver.cpp), which gives it to an output that Sunshine copies from.
--
-- The files:
--   * Prelude: shared names, Boolean tests on numbers, lists, integers (Prelude/Int), chains of
--     results that may be missing (Prelude/Options), and the wrap-around of uint64_t, uint32_t and
--     uint8_t.
--   * Algorithm: src/Utils/Algorithm.h, linear search. An iterator is its distance from the start.
--   * Refresh: src/refresh_rate.h, conversions of refresh rates.
--   * Rc: src/rc.h, the reference counts of commits and textures. A handle is an Rc (or OwningRc)
--     with the address it holds, an object's address stands for the object, and a World has both.
--   * Utf8: src/ime.cpp, the decoding of the text that an input method types.
--   * Vblank: src/vblankmanager.hpp and .cpp. State has CVBlankTimer's members as the record
--     VBlankTimer and what it reads from elsewhere (clock, refresh rate, VRR, screen type) as the
--     record Env; Schedule has GetNextVBlank and CalcNextWakeupTime, Arming has ArmNextVBlank,
--     MarkVBlank, ProcessVBlank, OnPollIn and the rounds of NudgeThread. Armed has the calls that
--     the rest of the program makes as a data type, and History runs a list of them. The lock
--     m_ScheduleMutex makes each of them one step.
--   * Window: steamcompmgr_win_t (src/steamcompmgr_shared.hpp) as the record Win, whose field addr
--     stands for the pointer; Window/Predicates has the tests on windows of src/steamcompmgr.cpp
--     and Window/Commits what is asked of a commit queue (src/commit.h).
--   * Focus: src/steamcompmgr.cpp. Priority has is_focus_priority_greater, by which windows are
--     ranked, and xwayland_ctx_t::GetPossibleFocusWindows; Pick has
--     pick_primary_focus_and_override. What that function writes through `out` and to windows is
--     the record Picked.
--   * Latch: src/steamcompmgr.cpp and src/xwayland_ctx.hpp. State has the globals as the record
--     Compositor; Vblank has steamcompmgr_should_vblank_window, steamcompmgr_latch_frame_done and
--     steamcompmgr_flush_frame_done; Commit has handle_done_commit, and Loops has
--     handle_done_commits_xwayland and handle_done_commits_xdg.
--   * Fence: src/commit.cpp, with src/waitable.h and the end of update_wayland_res in
--     src/steamcompmgr.cpp. The record Fences is a commit_t with what its operations act on; Event
--     is what the waiter's thread reports, at any time and in any order, or the end of the commit.
--   * Dynamic: src/steamcompmgr.cpp, the refresh rate for an app (_update_app_target_refresh_cycle)
--     and the switch to it in paint_all. The record Rates has the globals, and Frame what a frame
--     sees. What the DRM backend leaves (src/Backends/DRMBackend.cpp) is set_dynamic_refresh.
--   * Vulkan: src/rendervulkan.hpp and .cpp. Images has the states of the images that a
--     CVulkanCmdBuffer tracks, Record its operations with insertBarrier, and Calls a list of what
--     clients call, with an independent test of the commands that were recorded. Device has
--     CVulkanDevice's free and pending buffers; Steps has clients, device and GPU as a step
--     relation, and Invariant what holds in it. A handle that AllocateCommandBuffers gives is
--     assumed to be new. That an effect submits its own command buffer
--     (src/reshade_effect_manager.cpp, by submitInternal) is a step; its barriers on images are not
--     among the clients' calls.
--   * Drm: src/Backends/DRMBackend.cpp. Store has CDRMAtomicProperty and drm_t as the record Drm,
--     Liftoff drm_prepare_liftoff, Prepare drm_prepare, and Commit CDRMBackend::Commit with
--     page_flip_handler. An object is its id, and a property its place in CRTCProperties or
--     ConnectorProperties. What libliftoff answers and adds to the request (Liftoff), the kernel's
--     answer (an Errno), and which properties cannot be added to a request (Fails) are parameters.
--     Plan has what drm_prepare decides first. Fallback has CDRMBackend::Present from its first
--     drm_prepare on, with its tries, and a list of calls of it. Presents is about any number of
--     calls, Shown and Forgotten about one frame; the other files have their lemmas.
--   * Sunshine: src/Backends/SunshineBackend.cpp with the fields sunshine_* of src/wlserver.hpp.
--     Slots has the slots with AcquireSlot, ReleaseSlot, InitSlot and ResizeSlotPool, where what
--     gbm and Vulkan give is the record Allocation; Actions has CSunshineConnector::Present and the
--     handlers of the eventfd and of the timer (src/wlserver.cpp), cut where the other thread may
--     act, and a list of such actions is run; Timer has the interval of the timer. sunshine_output
--     exists, sunshine_release_func is ReleaseSlot, and the eventfd is open.
--   * Edid: src/edid.cpp. A vector of bytes is the record Bytes. Base has GenerateSimpleEdid with
--     its table, Metadata PatchEdid; DI_EDID_EXT_CEA of libdisplay-info and the logarithm in
--     encode_max_luminance are parameters.
--   * Tests: windows, timers and commits as they may be, and the theorems applied to them.
--
-- Errors are values: Option stands for a division by zero, std::bad_variant_access, an access out
-- of range, an assertion that fails, a null pointer that is read, a call of abort, an action of a
-- thread that is not at that point, or a loop that has not ended within its fuel. The loop of
-- GetNextVBlank has one round of fuel for each nanosecond of the clock, and one more, which is
-- enough since the refresh cycle is at least a nanosecond. The loops over transient links take any
-- fuel; a rank that falls along the links gives enough of it. That rank is a hypothesis where it is
-- needed. The loop over the data blocks of an EDID has one round of fuel for each byte, and one
-- more, and each round gets at least one byte further.
--
-- Times and ids are natural numbers with the wrap-around of uint64_t written out; the 32-bit sums
-- of window coordinates do not overflow. Refresh rates are not negative.
--
-- Not modelled: Xlib, wlroots, Vulkan, libdrm and gbm, which the compositor calls; the other
-- backends, and of the one for DRM its modes and connectors, the drawing of the composition path,
-- and what is set for libliftoff's layers beyond their framebuffers; painting, pipelines, shaders
-- and colour management (floating point); the rest of the Wayland server, whose callbacks are
-- wlroots'; what sets a window's fields (the property handlers); the rest of
-- determine_and_apply_focus, which is mostly calls of Xlib; and the debug output.

pub mod Prelude
pub mod Algorithm
pub mod Refresh
pub mod Vblank
pub mod Window
pub mod Focus
pub mod Latch
pub mod Rc
pub mod Utf8
pub mod Fence
pub mod Dynamic
pub mod Vulkan
pub mod Sunshine
pub mod Drm
pub mod Edid
pub mod Tests
